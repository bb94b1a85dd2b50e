-- ===== src/Pvm/Writer.antt =====
-- services/indexes/pvm/writer.go: from a block's bytes to the rows of the block, its proposer and its
-- transactions.
pub mod Stakes
pub mod Blocks
pub mod Strict
pub mod Stored
pub mod Keeps
pub mod Atomic
use axia_network_v2_magellan.Prelude.{
  ℕ, ◌+◌, ◌%◌, ◌^◌, Bool, true, false, List, [], ◌∷◌, ◌++◌, Option, none, some, length,
}
use axia_network_v2_magellan.Prelude.Text.{Text, codes}
use axia_network_v2_magellan.Prelude.Result.{Result, ok, err}
use axia_network_v2_magellan.Models.{TransactionType, string}
use axia_network_v2_magellan.Models
use axia_network_v2_magellan.Params.Query.{Ident}
use axia_network_v2_magellan.Db.Exec.{Exec, for_each, gets, lift, pure, ◌>>=◌, ◌>>◌}
use axia_network_v2_magellan.Db.Persist.{insert_rewards}
use axia_network_v2_magellan.Axc.Node.{
  AddInsContainer, AddOutsContainer, BaseTx, TransferableOutput,
}
use axia_network_v2_magellan.Axc.Outputs.{Writer}
use axia_network_v2_magellan.Axc.Writer.{insert_transaction}
use axia_network_v2_magellan.Pvm.Node.{
  Platform, RewardsOwner, Tx, UnsignedTx, Validator, add_delegator_tx, add_subnet_validator_tx,
  add_validator_tx, advance_time_tx, create_chain_tx, create_subnet_tx, export_tx, import_tx,
  no_owner, other_owner, other_tx, output_owners, reward_validator_tx,
}
use axia_network_v2_magellan.Pvm.Writer.Stakes.{
  insert_transaction_block, insert_transaction_validator, insert_staker,
}

module _ {D : Type 0} (w : Writer D) (p : Platform) where
  -- `w.axc.InsertTransaction` at the end of `indexTransaction`
  abbrev index_base :
      Tx
      → BaseTx
      → TransactionType
      → Option AddInsContainer
      → Option AddOutsContainer
      → Bool
      → Exec D Unit
  index_base tx base_tx typ ins outs genesis =
      insert_transaction w tx.bytes tx.unsigned_bytes base_tx tx.creds (string typ) ins outs 0
        genesis

  -- The switch on the type of the transaction
  unfoldable pub index_unsigned : Ident → Tx → Bool → UnsignedTx → Exec D Unit
  index_unsigned blk_id tx genesis (add_validator_tx base_tx stake validator owner) =
      insert_staker w p blk_id base_tx stake validator owner
      >> index_base tx base_tx Models.add_validator none
          (some (record { outs = stake; stake = true; chain_id = w.chain_id })) genesis
  index_unsigned blk_id tx genesis (add_subnet_validator_tx base_tx) =
      insert_transaction_block w base_tx.id blk_id
      >> index_base tx base_tx Models.add_subnet_validator none none genesis
  index_unsigned blk_id tx genesis (add_delegator_tx base_tx stake validator owner) =
      insert_staker w p blk_id base_tx stake validator owner
      >> index_base tx base_tx Models.add_delegator none
          (some (record { outs = stake; stake = true; chain_id = w.chain_id })) genesis
  index_unsigned blk_id tx genesis (create_subnet_tx base_tx) =
      insert_transaction_block w base_tx.id blk_id
      >> index_base tx base_tx Models.create_subnet none none genesis
  index_unsigned blk_id tx genesis (create_chain_tx base_tx) =
      insert_transaction_block w base_tx.id blk_id
      >> index_base tx base_tx Models.create_chain none none genesis
  index_unsigned blk_id tx genesis (import_tx base_tx imported source_chain) =
      insert_transaction_block w base_tx.id blk_id
      >> index_base tx base_tx Models.pvm_import
          (some (record { ins = imported; chain_id = w.node.id_string source_chain })) none genesis
  index_unsigned blk_id tx genesis (export_tx base_tx exported destination_chain) =
      insert_transaction_block w base_tx.id blk_id
      >> index_base tx base_tx Models.pvm_export none
          (some (record {
            outs = exported;
            stake = false;
            chain_id = w.node.id_string destination_chain;
          }))
          genesis
  index_unsigned blk_id tx genesis advance_time_tx = pure tt
  index_unsigned blk_id tx genesis (reward_validator_tx id tx_id prefers) =
      insert_rewards w.session
        (record {
          id = w.node.id_string id;
          block_id = w.node.id_string blk_id;
          txid = w.node.id_string tx_id;
          shouldprefercommit = prefers;
          created_at = w.ctx_time;
          processed = 0;
        })
        w.perform_updates
  index_unsigned blk_id tx genesis (other_tx name) = lift (err (codes "unknown tx type " ++ name))

  unfoldable pub index_transaction : Ident → Tx → Bool → Exec D Unit
  index_transaction blk_id tx genesis = index_unsigned blk_id tx genesis tx.unsigned_tx
