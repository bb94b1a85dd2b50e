-- ===== src/Tests/ChainTxs.antt =====
-- An operation of the exchange chain, an export of the contract chain, and the rows that they leave.
use axia_network_v2_magellan.Prelude.{◌<◌, ◌^◌, List, [], ◌∷◌, none, some, ◌≡◌, refl, arith}
use axia_network_v2_magellan.Prelude.Dict.{lookup, insert}
use axia_network_v2_magellan.Prelude.Text.{Text, codes, text_eq, text_beq}
use axia_network_v2_magellan.Prelude.Result.{ok}
use axia_network_v2_magellan.Models.{string}
use axia_network_v2_magellan.Models
use axia_network_v2_magellan.Db.Exec
use axia_network_v2_magellan.Db.Exec.{for_each}
use axia_network_v2_magellan.Db.Columns.{Row}
use axia_network_v2_magellan.Db.Persist.{
  insert_transactions, insert_outputs, insert_outputs_redeeming,
  update_output_address_accumulate_in_outputs_processed, upsert, exec_tolerant, exec_strict,
  tolerant, strict,
}
use axia_network_v2_magellan.Db.OneTable.{run}
use axia_network_v2_magellan.Axc.Node.{secp_transfer_output}
use axia_network_v2_magellan.Axc.Outputs.{
  insert_transaction_outs, process_state_out, insert_output, add_axc,
}
use axia_network_v2_magellan.Axc.Writer.{
  insert_transaction, insert_transaction_base, insert_ins, insert_add_ins, insert_outs,
  insert_add_outs, tx_fee,
}
use axia_network_v2_magellan.Axc.Inputs.{insert_transaction_ins, insert_credential}
use axia_network_v2_magellan.Axc.Writer.Fee.{spent}
use axia_network_v2_magellan.Axc.Writer.Sums.{outflow}
use axia_network_v2_magellan.Avm.Node.{Operation, Tx, operation_tx}
use axia_network_v2_magellan.Avm.Writer.{
  first_outs, insert_operation_tx, insert_tx_internal, insert_unsigned, op_inputs, operation_outs,
  state_outs,
}
use axia_network_v2_magellan.Avm.Writer.Stored
use axia_network_v2_magellan.Avm.Writer.Stored.{
  insert_tx_internal-HasRow, operations_flow, state_flow,
}
use axia_network_v2_magellan.Tests.Setting.{node-Adds}
use axia_network_v2_magellan.Tests.DbRows.{id_rows-IsTable}
use axia_network_v2_magellan.Tests.Writing.{axc, transfer, writer}

abbrev mint : Operation
mint = record {
  asset_id = axc;
  utxo_ids = (codes "old", 2) ∷ [];
  outs =
      secp_transfer_output
        (record { amt = 2; owners = record { locktime = 0; threshold = 1; addresses = [] } })
      ∷ [];
}

abbrev minting : Tx
minting = record {
  unsigned_tx = operation_tx transfer (mint ∷ []);
  creds = [];
  unsigned_bytes = 1 ∷ [];
}

abbrev after_minting : List (Text × Row)
after_minting = (insert_tx_internal writer minting (1 ∷ 2 ∷ []) []).1

minting_runs : insert_tx_internal writer minting (1 ∷ 2 ∷ []) [] ≡ (ok tt, after_minting)
unfolding insert_tx_internal insert_unsigned insert_operation_tx first_outs operation_outs
    state_outs op_inputs insert_transaction insert_ins insert_add_ins insert_outs insert_add_outs
    insert_transaction_ins insert_transaction_outs process_state_out insert_output insert_credential
    add_axc insert_transaction_base tx_fee for_each Exec.pure Exec.lift Exec.gets Exec.◌>>=◌
    insert_transactions insert_outputs insert_outputs_redeeming
    update_output_address_accumulate_in_outputs_processed upsert exec_tolerant exec_strict tolerant
    strict run lookup insert text_beq
minting_runs = refl

abbrev minted : Stored.Moved
minted = record {
  base_tx = transfer;
  tx_type = Models.operation;
  add_ins = some (record { ins = op_inputs (mint ∷ []); chain_id = codes "X" });
  add_outs = none;
  made = operations_flow writer (mint ∷ []);
}

minted_small : spent axc transfer none (operations_flow writer (mint ∷ [])) < 2 ^ 64
unfolding outflow operations_flow state_flow text_beq
minted_small = omega arith

insert_tx_internal-HasRow_example : Stored.HasRow writer lookup minted after_minting
insert_tx_internal-HasRow_example =
    insert_tx_internal-HasRow writer node-Adds lookup (id_rows-IsTable (codes "avm_transactions"))
      minting (1 ∷ 2 ∷ []) minted [] after_minting refl refl minted_small minting_runs
