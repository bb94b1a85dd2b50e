-- ===== src/Tests/Exports.antt =====
-- An export of the contract chain with more outputs than it pays for, and the row that it leaves.
use axia_network_v2_magellan.Prelude.{List, [], ◌∷◌, some, ◌≡◌, refl}
use axia_network_v2_magellan.Prelude.Dict.{lookup, insert}
use axia_network_v2_magellan.Prelude.Text.{Text, codes, text_eq, text_beq}
use axia_network_v2_magellan.Prelude.Result.{ok, err}
use axia_network_v2_magellan.Models
use axia_network_v2_magellan.Db.Exec
use axia_network_v2_magellan.Db.Exec.{for_each}
use axia_network_v2_magellan.Db.Columns.{Row}
use axia_network_v2_magellan.Db.Contract.{insert_cvm_addresses}
use axia_network_v2_magellan.Db.Persist.{
  insert_transactions, insert_outputs, upsert, exec_tolerant, exec_strict, tolerant, strict,
}
use axia_network_v2_magellan.Db.OneTable.{run}
use axia_network_v2_magellan.Axc.Outputs.{
  insert_transaction_outs, process_state_out, insert_output, add_axc,
}
use axia_network_v2_magellan.Axc.Writer.{insert_transaction_base}
use axia_network_v2_magellan.Cvm.Node.{AtomicTx, Contract, UnsignedAtomicTx, unsigned_export_tx}
use axia_network_v2_magellan.Cvm.Writer.{
  atomic_fee, export_ins, export_outs, index_atomic, index_export_tx, index_transaction,
  insert_address,
}
use axia_network_v2_magellan.Cvm.Writer.Stored.{
  HasRow, Moved, account_inflow, index_atomic-HasRow, moved,
}
use axia_network_v2_magellan.Axc.Writer.Sums.{outflow}
use axia_network_v2_magellan.Tests.Setting.{node-Adds}
use axia_network_v2_magellan.Tests.DbRows.{id_rows-IsTable}
use axia_network_v2_magellan.Tests.Writing.{axc, transfer, writer}

abbrev exported : UnsignedAtomicTx
exported = unsigned_export_tx (record {
  blockchain_id = codes "C";
  destination_chain = codes "X";
  ins = (record { address = codes "0xa"; amount = 5; asset_id = axc; nonce = 1 }) ∷ [];
  exported_outputs = transfer.outs;
})

abbrev export : AtomicTx
export = record { id = codes "tx"; unsigned = exported; creds = [] }

abbrev contract : Contract
contract = record {
  unmarshal_tx = λ b. err (codes "no codec");
  unmarshal_txs = λ b. err (codes "no codec");
  sign = λ t. ok t;
  marshal_unsigned = λ u. ok [];
  unmarshal_trace = λ b. err (codes "no codec");
}

abbrev after_export : List (Text × Row)
after_export = (index_atomic writer 1 contract [] export exported (0, []) []).1

export_runs :
    index_atomic writer 1 contract [] export exported (0, []) []
    ≡ (ok (Models.axchain_export, codes "C"), after_export)
unfolding index_atomic index_export_tx export_ins export_outs insert_address index_transaction
    atomic_fee insert_cvm_addresses insert_transaction_outs process_state_out insert_output add_axc
    insert_transaction_base for_each Exec.pure Exec.lift Exec.gets Exec.◌>>=◌ insert_transactions
    insert_outputs upsert exec_tolerant exec_strict tolerant strict run lookup insert text_beq
export_runs = refl

-- 5 goes in and 7 comes out.
abbrev export_moves : Moved
export_moves = record { name = codes "atomic_export_tx"; paid = 5; spent = 7 }

exported_moves : moved axc exported ≡ some export_moves
unfolding text_beq account_inflow outflow
exported_moves = refl

index_atomic-HasRow_example :
    HasRow writer node-Adds 1 lookup
      (id_rows-IsTable (codes "avm_transactions"))
      (codes "tx")
      export_moves
      after_export
index_atomic-HasRow_example =
    index_atomic-HasRow writer node-Adds 1 lookup (id_rows-IsTable (codes "avm_transactions"))
      contract [] export exported export_moves (0, []) (Models.axchain_export, codes "C") []
      after_export exported_moves refl export_runs
