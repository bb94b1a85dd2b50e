-- ===== src/Pvm/Writer/Stakes.antt =====
-- services/indexes/pvm/writer.go: the rows of a transaction's block, and of a staker.
use axia_network_v2_magellan.Prelude.{ℕ, ◌+◌, ◌%◌, ◌^◌, List, [], ◌∷◌, ◌++◌, length}
use axia_network_v2_magellan.Prelude.Text.{codes}
use axia_network_v2_magellan.Prelude.Result.{err}
use axia_network_v2_magellan.Params.Query.{Ident}
use axia_network_v2_magellan.Db.Exec.{Exec, for_each, gets, lift, pure, ◌>>=◌, ◌>>◌}
use axia_network_v2_magellan.Db.Persist.{insert_transactions_block, insert_transactions_validator}
use axia_network_v2_magellan.Db.Platform.{
  insert_transactions_rewards_owners, insert_transactions_rewards_owners_address,
  insert_transactions_rewards_owners_outputs,
}
use axia_network_v2_magellan.Axc.Node.{BaseTx, OutputOwners, TransferableOutput}
use axia_network_v2_magellan.Axc.Outputs.{Writer, short_id}
use axia_network_v2_magellan.Pvm.Node.{
  Platform, RewardsOwner, Validator, no_owner, other_owner, output_owners,
}

module _ {D : Type 0} (w : Writer D) where
  unfoldable pub insert_transaction_block : Ident → Ident → Exec D Unit
  insert_transaction_block tx_id blk_tx_id =
      insert_transactions_block w.session
        (record {
          id = w.node.id_string tx_id;
          tx_block_id = w.node.id_string blk_tx_id;
          created_at = w.ctx_time;
        })
        w.perform_updates

  -- The loop over the owner's addresses, from the position `ipos`
  unfoldable pub insert_owner_addresses : Ident → ℕ → List (List ℕ) → Exec D Unit
  insert_owner_addresses tx_id ipos [] = pure tt
  insert_owner_addresses tx_id ipos (addr ∷ addrs) = do
    updated ← gets w.session.now
    insert_transactions_rewards_owners_address w.session
        (record {
          id = w.node.id_string tx_id;
          address = w.node.short_string (short_id addr);
          output_index = ipos % 2 ^ 32;
          updated_at = updated;
        })
        w.perform_updates
    insert_owner_addresses tx_id (ipos + 1) addrs

  -- The output of a reward, at the position `ipos`
  unfoldable pub insert_reward_output : Ident → ℕ → Exec D Unit
  insert_reward_output tx_id ipos =
      insert_transactions_rewards_owners_outputs w.session
        (record {
          id = w.node.id_string (w.node.prefix tx_id ipos);
          transaction_id = w.node.id_string tx_id;
          output_index = ipos % 2 ^ 32;
          created_at = w.ctx_time;
        })
        w.perform_updates

  unfoldable pub insert_transactions_rewards_owners_of :
      OutputOwners → BaseTx → List TransferableOutput → Exec D Unit
  insert_transactions_rewards_owners_of owner base_tx stake_outs = do
    insert_owner_addresses base_tx.id 0 owner.addresses
    let outcnt = length base_tx.outs + length stake_outs
    for_each (insert_reward_output base_tx.id) (outcnt ∷ (outcnt + 1) ∷ [])
    insert_transactions_rewards_owners w.session
        (record {
          id = w.node.id_string base_tx.id;
          chain_id = w.chain_id;
          threshold = owner.threshold;
          locktime = owner.locktime;
          created_at = w.ctx_time;
        })
        w.perform_updates

  -- `insertTransactionsRewardsOwners`, with the test of the caller that the owner is not nil
  unfoldable pub insert_rewards_owner :
      RewardsOwner → BaseTx → List TransferableOutput → Exec D Unit
  insert_rewards_owner no_owner base_tx stake_outs = pure tt
  insert_rewards_owner (output_owners owner) base_tx stake_outs =
      insert_transactions_rewards_owners_of owner base_tx stake_outs
  insert_rewards_owner (other_owner name) base_tx stake_outs =
      lift (err (codes "rewards owner " ++ name))

  module _ (p : Platform) where
    unfoldable pub insert_transaction_validator : Ident → Validator → Exec D Unit
    insert_transaction_validator tx_id validator =
        insert_transactions_validator w.session
          (record {
            id = w.node.id_string tx_id;
            node_id = p.node_id_string validator.node_id;
            start = validator.start;
            end_time = validator.end_time;
            created_at = w.ctx_time;
          })
          w.perform_updates

    -- What `indexTransaction` does for a validator and for a delegator before it stores the transaction
    unfoldable pub insert_staker :
        Ident → BaseTx → List TransferableOutput → Validator → RewardsOwner → Exec D Unit
    insert_staker blk_id base_tx stake validator owner = do
      insert_transaction_validator base_tx.id validator
      insert_transaction_block base_tx.id blk_id
      insert_rewards_owner owner base_tx stake
