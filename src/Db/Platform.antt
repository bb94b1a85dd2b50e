-- ===== src/Db/Platform.antt =====
-- db/dbmodel.go: the assets, and the rows of the platform chain that the blocks do not have: proposers,
-- epochs, and the owners of rewards.
use axia_network_v2_magellan.Prelude.{ℕ, Bool, [], ◌∷◌, if◌then◌else◌}
use axia_network_v2_magellan.Prelude.Text.{Text, codes}
use axia_network_v2_magellan.Params.Query.{Time}
use axia_network_v2_magellan.Db.Exec.{
  Value, text, num, bytes, flag, time, raw, Cond, equals, Stmt, insert_into, update, Session, Exec,
}
use axia_network_v2_magellan.Db.Exec
use axia_network_v2_magellan.Db.Columns.{where_key}
use axia_network_v2_magellan.Db.Persist.{exec_strict, exec_tolerant, upsert}

pub record Assets : Type 0 where
  pub id : Text
  pub chain_id : Text
  pub name : Text
  pub symbol : Text
  pub denomination : ℕ
  pub alias : Text
  pub current_supply : ℕ
  pub created_at : Time

pub record TransactionsEpoch : Type 0 where
  pub id : Text
  pub epoch : ℕ
  pub vertex_id : Text
  pub created_at : Time

pub record PvmProposer : Type 0 where
  pub id : Text
  pub parent_id : Text
  pub blk_id : Text
  pub proposer_blk_id : Text
  pub core_chain_height : ℕ
  pub proposer : Text
  pub time_stamp : Time
  pub created_at : Time

pub record TransactionsRewardsOwnersAddress : Type 0 where
  pub id : Text
  pub address : Text
  pub output_index : ℕ
  pub updated_at : Time

pub record TransactionsRewardsOwnersOutputs : Type 0 where
  pub id : Text
  pub transaction_id : Text
  pub output_index : ℕ
  pub created_at : Time

pub record TransactionsRewardsOwners : Type 0 where
  pub id : Text
  pub chain_id : Text
  pub threshold : ℕ
  pub locktime : ℕ
  pub created_at : Time

module _ {D : Type 0} (s : Session D) where
  unfoldable pub insert_assets : Assets → Bool → Exec D Unit
  insert_assets v upd =
      upsert s (codes "avm_assets") (codes "avm_assets") ((codes "id", text v.id) ∷ [])
        ((codes "chain_Id", text v.chain_id)
          ∷ (codes "name", text v.name)
          ∷ (codes "symbol", text v.symbol)
          ∷ (codes "denomination", num v.denomination)
          ∷ (codes "alias", text v.alias)
          ∷ (codes "current_supply", num v.current_supply)
          ∷ (codes "created_at", time v.created_at)
          ∷ [])
        ((codes "chain_Id", text v.chain_id)
          ∷ (codes "name", text v.name)
          ∷ (codes "symbol", text v.symbol)
          ∷ (codes "denomination", num v.denomination)
          ∷ (codes "alias", text v.alias)
          ∷ (codes "current_supply", num v.current_supply)
          ∷ (codes "created_at", time v.created_at)
          ∷ [])
        upd

  unfoldable pub insert_transactions_epoch : TransactionsEpoch → Bool → Exec D Unit
  insert_transactions_epoch v upd =
      upsert s (codes "transactions_epoch") (codes "transactions_epoch")
        ((codes "id", text v.id) ∷ [])
        ((codes "epoch", num v.epoch)
          ∷ (codes "vertex_id", text v.vertex_id)
          ∷ (codes "created_at", time v.created_at)
          ∷ [])
        ((codes "epoch", num v.epoch)
          ∷ (codes "vertex_id", text v.vertex_id)
          ∷ (codes "created_at", time v.created_at)
          ∷ [])
        upd

  unfoldable pub insert_pvm_proposer : PvmProposer → Bool → Exec D Unit
  insert_pvm_proposer v upd =
      Exec.◌>>=◌
        (exec_tolerant s (codes "cvm_transactions_txdata_trace") (
          insert_into (codes "pvm_proposer") (
            (codes "id", text v.id)
            ∷ (codes "parent_id", text v.parent_id)
            ∷ (codes "blk_id", text v.blk_id)
            ∷ (codes "p_chain_height", num v.core_chain_height)
            ∷ (codes "proposer", text v.proposer)
            ∷ (codes "time_stamp", time v.time_stamp)
            ∷ (codes "created_at", time v.created_at)
            ∷ (codes "proposer_blk_id", text v.proposer_blk_id)
            ∷ [])))
        (λ _.
          if upd
          then exec_strict s (codes "pvm_proposer") (
              update (codes "pvm_proposer")
                ((codes "parent_id", text v.parent_id)
                  ∷ (codes "blk_id", text v.blk_id)
                  ∷ (codes "p_chain_height", num v.core_chain_height)
                  ∷ (codes "proposer", text v.proposer)
                  ∷ (codes "time_stamp", time v.time_stamp)
                  ∷ (codes "created_at", time v.created_at)
                  ∷ (codes "proposer_blk_id", text v.proposer_blk_id)
                  ∷ [])
                (where_key ((codes "id", text v.id) ∷ [])))
          else Exec.pure tt)

  unfoldable pub insert_transactions_rewards_owners_address :
      TransactionsRewardsOwnersAddress → Bool → Exec D Unit
  insert_transactions_rewards_owners_address v upd =
      upsert s (codes "transactions_rewards_owners_address")
        (codes "transactions_rewards_owners_address")
        ((codes "id", text v.id) ∷ (codes "address", text v.address) ∷ [])
        ((codes "output_index", num v.output_index) ∷ (codes "updated_at", time v.updated_at) ∷ [])
        ((codes "output_index", num v.output_index) ∷ (codes "updated_at", time v.updated_at) ∷ [])
        upd

  unfoldable pub insert_transactions_rewards_owners_outputs :
      TransactionsRewardsOwnersOutputs → Bool → Exec D Unit
  insert_transactions_rewards_owners_outputs v upd =
      upsert s (codes "transactions_rewards_owners_outputs")
        (codes "transactions_rewards_owners_outputs") ((codes "id", text v.id) ∷ [])
        ((codes "transaction_id", text v.transaction_id)
          ∷ (codes "output_index", num v.output_index)
          ∷ (codes "created_at", time v.created_at)
          ∷ [])
        ((codes "transaction_id", text v.transaction_id)
          ∷ (codes "output_index", num v.output_index)
          ∷ (codes "created_at", time v.created_at)
          ∷ [])
        upd

  unfoldable pub insert_transactions_rewards_owners : TransactionsRewardsOwners → Bool → Exec D Unit
  insert_transactions_rewards_owners v upd =
      upsert s (codes "transactions_rewards_owners") (codes "transactions_rewards_owners")
        ((codes "id", text v.id) ∷ [])
        ((codes "chain_id", text v.chain_id)
          ∷ (codes "locktime", num v.locktime)
          ∷ (codes "threshold", num v.threshold)
          ∷ (codes "created_at", time v.created_at)
          ∷ [])
        ((codes "chain_id", text v.chain_id)
          ∷ (codes "locktime", num v.locktime)
          ∷ (codes "threshold", num v.threshold)
          ∷ (codes "created_at", time v.created_at)
          ∷ [])
        upd
