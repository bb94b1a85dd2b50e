-- ===== src/Tests/PvmBlocks.antt =====
-- A block of the platform chain with one transaction, and the row that it leaves.
use axia_network_v2_magellan.Prelude.{◌<◌, ◌^◌, false, List, [], ◌∷◌, none, some, ◌≡◌, refl, arith}
use axia_network_v2_magellan.Prelude.Dict.{lookup, insert}
use axia_network_v2_magellan.Prelude.Text.{Text, codes, text_eq, text_beq}
use axia_network_v2_magellan.Prelude.Result.{ok, err}
use axia_network_v2_magellan.Models.{string}
use axia_network_v2_magellan.Models
use axia_network_v2_magellan.Db.Exec
use axia_network_v2_magellan.Db.Exec.{for_each}
use axia_network_v2_magellan.Db.Columns.{Row}
use axia_network_v2_magellan.Db.Persist.{
  insert_transactions, insert_outputs, insert_outputs_redeeming, insert_transactions_block,
  update_output_address_accumulate_in_outputs_processed, upsert, exec_tolerant, exec_strict,
  tolerant, strict,
}
use axia_network_v2_magellan.Db.OneTable.{run}
use axia_network_v2_magellan.Axc.Outputs.{
  insert_transaction_outs, process_state_out, insert_output, add_axc,
}
use axia_network_v2_magellan.Axc.Writer.{
  insert_transaction, insert_transaction_base, insert_ins, insert_add_ins, insert_outs,
  insert_add_outs, tx_fee,
}
use axia_network_v2_magellan.Axc.Inputs.{insert_transaction_ins, insert_credential}
use axia_network_v2_magellan.Axc.Writer.Fee.{spent}
use axia_network_v2_magellan.Axc.Writer.Sums.{outflow}
use axia_network_v2_magellan.Pvm.Node.{Platform, Tx, import_tx, standard_block}
use axia_network_v2_magellan.Pvm.Writer.{index_transaction, index_unsigned}
use axia_network_v2_magellan.Pvm.Writer.Stakes.{insert_transaction_block}
use axia_network_v2_magellan.Pvm.Writer.Blocks.{index_block}
use axia_network_v2_magellan.Pvm.Writer.Strict.{
  AgreesOnSuccess, index_block-in_turn, index_block_heedless, index_block_in_turn,
}
use axia_network_v2_magellan.Pvm.Writer.Stored.{HasRow, Moved, index_transaction-HasRow}
use axia_network_v2_magellan.Tests.Setting.{node-Adds}
use axia_network_v2_magellan.Tests.DbRows.{id_rows-IsTable}
use axia_network_v2_magellan.Tests.Writing.{axc, transfer, writer}

abbrev imported : Tx
imported = record {
  unsigned_tx =
      import_tx transfer
        ((record { tx_id = codes "far"; output_index = 1; asset_id = axc; amount = 4 }) ∷ [])
        (codes "C");
  creds = [];
  unsigned_bytes = 1 ∷ [];
  bytes = 1 ∷ 2 ∷ [];
}

abbrev pub platform : Platform
platform = record {
  parse_proposer = λ b. err (codes "not a proposer block");
  unmarshal =
      λ b. ok (0, standard_block (record { parent = codes "p"; height = 8 }) (imported ∷ []));
  marshal_unsigned = λ v u. ok (1 ∷ []);
  marshal_signed = λ v t. err (codes "no codec");
  initialize = λ t u b. record t { unsigned_bytes = u; bytes = b };
  hash_id = λ b. b;
  node_id_string = λ i. i;
  propagate = λ e m. m;
}

index_block-in_turn_example :
    AgreesOnSuccess
      (index_block writer platform (codes "blk") [])
      (index_block_in_turn writer platform (codes "blk") [])
    × ((index_block writer platform (codes "blk") []).1
        ≡ (index_block_heedless writer platform (codes "blk") []).1)
index_block-in_turn_example = index_block-in_turn writer platform (codes "blk") []

abbrev after_import : List (Text × Row)
after_import = (index_transaction writer platform (codes "blk") imported false []).1

import_runs :
    index_transaction writer platform (codes "blk") imported false [] ≡ (ok tt, after_import)
unfolding index_transaction index_unsigned insert_transaction_block insert_transactions_block
    insert_transaction insert_ins insert_add_ins insert_outs insert_add_outs insert_transaction_ins
    insert_transaction_outs process_state_out insert_output insert_credential add_axc
    insert_transaction_base tx_fee for_each Exec.pure Exec.lift Exec.gets Exec.◌>>=◌
    insert_transactions insert_outputs insert_outputs_redeeming
    update_output_address_accumulate_in_outputs_processed upsert exec_tolerant exec_strict tolerant
    strict run lookup insert text_beq
import_runs = refl

abbrev import_moves : Moved
import_moves = record {
  base_tx = transfer;
  tx_type = Models.pvm_import;
  add_ins = some (record {
    ins = (record { tx_id = codes "far"; output_index = 1; asset_id = axc; amount = 4 }) ∷ [];
    chain_id = codes "C";
  });
  add_outs = none;
}

import_small : spent axc transfer none 0 < 2 ^ 64
unfolding outflow text_beq
import_small = omega arith

index_transaction-HasRow_example : HasRow writer lookup false import_moves after_import
index_transaction-HasRow_example =
    index_transaction-HasRow writer platform node-Adds lookup
      (id_rows-IsTable (codes "avm_transactions")) (codes "blk") imported false import_moves []
      after_import refl refl import_small import_runs
