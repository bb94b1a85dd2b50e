-- ===== src/Db/Balances.antt =====
-- db/dbmodel.go: the accumulated balances. An insert leaves the sums to their defaults.
use axia_network_v2_magellan.Prelude.{[], ◌∷◌}
use axia_network_v2_magellan.Prelude.Text.{Text, codes}
use axia_network_v2_magellan.Params.Query.{Time}
use axia_network_v2_magellan.Db.Exec.{text, time, insert_into, Session, Exec}
use axia_network_v2_magellan.Db.Persist.{exec_tolerant}

pub record AccumulateBalancesAmount : Type 0 where
  pub id : Text
  pub chain_id : Text
  pub asset_id : Text
  pub address : Text
  pub total_amount : Text
  pub utxo_count : Text
  pub updated_at : Time

pub record AccumulateBalancesTransactions : Type 0 where
  pub id : Text
  pub chain_id : Text
  pub asset_id : Text
  pub address : Text
  pub transaction_count : Text
  pub updated_at : Time

module _ {D : Type 0} (s : Session D) where
  unfoldable pub insert_accumulate_balances_received : AccumulateBalancesAmount → Exec D Unit
  insert_accumulate_balances_received v = exec_tolerant s (codes "accumulate_balances_received") (
      insert_into (codes "accumulate_balances_received") (
        (codes "id", text v.id)
        ∷ (codes "chain_id", text v.chain_id)
        ∷ (codes "asset_id", text v.asset_id)
        ∷ (codes "address", text v.address)
        ∷ (codes "updated_at", time v.updated_at)
        ∷ []))

  unfoldable pub insert_accumulate_balances_sent : AccumulateBalancesAmount → Exec D Unit
  insert_accumulate_balances_sent v = exec_tolerant s (codes "accumulate_balances_sent") (
      insert_into (codes "accumulate_balances_sent") (
        (codes "id", text v.id)
        ∷ (codes "chain_id", text v.chain_id)
        ∷ (codes "asset_id", text v.asset_id)
        ∷ (codes "address", text v.address)
        ∷ (codes "updated_at", time v.updated_at)
        ∷ []))

  unfoldable pub insert_accumulate_balances_transactions :
      AccumulateBalancesTransactions → Exec D Unit
  insert_accumulate_balances_transactions v =
      exec_tolerant s (codes "accumulate_balances_transactions") (
        insert_into (codes "accumulate_balances_transactions") (
          (codes "id", text v.id)
          ∷ (codes "chain_id", text v.chain_id)
          ∷ (codes "asset_id", text v.asset_id)
          ∷ (codes "address", text v.address)
          ∷ (codes "updated_at", time v.updated_at)
          ∷ []))
