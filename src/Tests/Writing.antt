-- ===== src/Tests/Writing.antt =====
-- A transaction with one input and one output, and the stored row.
use axia_network_v2_magellan.Prelude.{
  ◌<◌, ◌^◌, true, false, List, [], ◌∷◌, none, some, ◌≡◌, refl, arith,
}
use axia_network_v2_magellan.Prelude.Dict.{lookup, insert}
use axia_network_v2_magellan.Prelude.Text.{Text, codes, text_eq, text_beq}
use axia_network_v2_magellan.Prelude.Result.{ok}
use axia_network_v2_magellan.Db.Exec
use axia_network_v2_magellan.Db.Exec.{for_each, Value, text, num, bytes, flag}
use axia_network_v2_magellan.Db.Columns.{Row}
use axia_network_v2_magellan.Db.Persist.{
  insert_transactions, insert_outputs, insert_outputs_redeeming,
  update_output_address_accumulate_in_outputs_processed, upsert, exec_tolerant, exec_strict,
  tolerant, strict,
}
use axia_network_v2_magellan.Db.OneTable.{one_table, run}
use axia_network_v2_magellan.Db.Rewrite.{Stored}
use axia_network_v2_magellan.Axc.Outputs.{
  Writer, insert_transaction_outs, process_state_out, insert_output, add_axc,
}
use axia_network_v2_magellan.Axc.Node.{BaseTx, secp_transfer_output}
use axia_network_v2_magellan.Axc.Writer.{
  insert_transaction, insert_transaction_base, fitting_memo, insert_ins, insert_add_ins,
  insert_outs, insert_add_outs, tx_fee,
}
use axia_network_v2_magellan.Axc.Inputs.{insert_transaction_ins, insert_credential}
use axia_network_v2_magellan.Axc.Writer.Fee.{
  fee_of, paid, spent, insert_transaction-fee_of, insert_transaction-Stored,
}
use axia_network_v2_magellan.Axc.Writer.Sums.{outflow}
use axia_network_v2_magellan.Tests.Setting.{noon, node, node-Adds}
use axia_network_v2_magellan.Tests.DbRows.{first_text, only_text, id_rows-IsTable}

abbrev pub axc : Text
axc = codes "AXC"

abbrev pub writer : Writer (List (Text × Row))
writer = record {
  chain_id = codes "X";
  axc_asset_id = axc;
  node = node;
  session = one_table first_text only_text (codes "avm_transactions");
  ctx_time = noon;
  perform_updates = true;
}

abbrev pub transfer : BaseTx
transfer = record {
  id = codes "tx";
  network_id = 1;
  ins = (record { tx_id = codes "in"; output_index = 0; asset_id = axc; amount = 10 }) ∷ [];
  outs =
      (record {
        asset_id = axc;
        out =
            secp_transfer_output
              (record { amt = 7; owners = record { locktime = 0; threshold = 1; addresses = [] } });
      })
      ∷ [];
  memo = none;
}

abbrev after_transfer : List (Text × Row)
after_transfer = (insert_transaction writer [] [] transfer [] (codes "base") none none 1 false []).1

insert_transaction_runs :
    insert_transaction writer [] [] transfer [] (codes "base") none none 1 false []
    ≡ (ok tt, after_transfer)
unfolding insert_transaction insert_ins insert_add_ins insert_outs insert_add_outs
    insert_transaction_ins insert_transaction_outs process_state_out insert_output insert_credential
    add_axc insert_transaction_base tx_fee for_each Exec.pure Exec.lift Exec.gets Exec.◌>>=◌
    insert_transactions insert_outputs insert_outputs_redeeming
    update_output_address_accumulate_in_outputs_processed upsert exec_tolerant exec_strict tolerant
    strict run lookup insert text_beq
insert_transaction_runs = refl

pub transfer_small : spent axc transfer none 1 < 2 ^ 64
unfolding outflow text_beq
transfer_small = omega arith

insert_transaction-fee_of_example :
    (paid axc transfer none < 2 ^ 64)
    × (before : List (Text × Row)) × (insert_transaction_base writer
          (codes "tx")
          (codes "X")
          (codes "base")
          none
          []
          (fee_of false (paid axc transfer none) (spent axc transfer none 1))
          false
          1
          before
        ≡ (ok tt, after_transfer))
insert_transaction-fee_of_example =
    insert_transaction-fee_of writer node-Adds [] [] transfer [] (codes "base") none none 1 false []
      after_transfer transfer_small insert_transaction_runs

insert_transaction-Stored_example :
    (row : Row) × (lookup (codes "tx") after_transfer ≡ some row)
    × Stored
        ((codes "type", text (codes "base"))
          ∷ (codes "txfee", num (fee_of false (paid axc transfer none) (spent axc transfer none 1)))
          ∷ (codes "genesis", flag false)
          ∷ (codes "memo", bytes (fitting_memo none))
          ∷ [])
        row
insert_transaction-Stored_example =
    insert_transaction-Stored writer node-Adds lookup (id_rows-IsTable (codes "avm_transactions"))
      [] [] transfer [] (codes "base") none none 1 false [] after_transfer refl transfer_small
      insert_transaction_runs
