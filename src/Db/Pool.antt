-- ===== src/Db/Pool.antt =====
-- db/dbmodel.go: the pool of messages to process, the settings, and the progress of the producers.
use axia_network_v2_magellan.Prelude.{ℕ, Bool, List, [], ◌∷◌, some}
use axia_network_v2_magellan.Prelude.Text.{Text, codes}
use axia_network_v2_magellan.Params.Query.{Time}
use axia_network_v2_magellan.Db.Exec.{text, num, bytes, time, insert_into, update, Session, Exec}
use axia_network_v2_magellan.Db.Columns.{where_key}
use axia_network_v2_magellan.Db.Persist.{exec_strict, exec_tolerant, upsert}

pub record TxPool : Type 0 where
  pub id : Text
  pub network_id : ℕ
  pub chain_id : Text
  pub msg_key : Text
  pub serialization : List ℕ
  pub processed : ℕ
  pub topic : Text
  pub created_at : Time

pub record KeyValueStore : Type 0 where
  pub k : Text
  pub v : Text

pub record NodeIndex : Type 0 where
  pub instance : Text
  pub topic : Text
  pub idx : ℕ

module _ {D : Type 0} (s : Session D) where
  unfoldable pub insert_tx_pool : TxPool → Exec D Unit
  insert_tx_pool v = exec_tolerant s (codes "tx_pool") (
      insert_into (codes "tx_pool") (
        (codes "id", text v.id)
        ∷ (codes "network_id", num v.network_id)
        ∷ (codes "chain_id", text v.chain_id)
        ∷ (codes "msg_key", text v.msg_key)
        ∷ (codes "serialization", bytes (some v.serialization))
        ∷ (codes "processed", num v.processed)
        ∷ (codes "topic", text v.topic)
        ∷ (codes "created_at", time v.created_at)
        ∷ []))

  unfoldable pub insert_key_value_store : KeyValueStore → Exec D Unit
  insert_key_value_store v =
      exec_tolerant s (codes "key_value_store")
        (insert_into (codes "key_value_store") ((codes "k", text v.k) ∷ (codes "v", text v.v) ∷ []))

  unfoldable pub insert_node_index : NodeIndex → Bool → Exec D Unit
  insert_node_index v upd =
      upsert s (codes "node_index") (codes "node_index")
        ((codes "instance", text v.instance) ∷ (codes "topic", text v.topic) ∷ [])
        ((codes "idx", num v.idx) ∷ []) ((codes "idx", num v.idx) ∷ []) upd

  unfoldable pub update_tx_pool_status : TxPool → Exec D Unit
  update_tx_pool_status v = exec_tolerant s (codes "tx_pool") (
      update (codes "tx_pool") ((codes "processed", num v.processed) ∷ [])
        (where_key ((codes "id", text v.id) ∷ [])))

  unfoldable pub update_node_index : NodeIndex → Exec D Unit
  update_node_index v = exec_strict s (codes "node_index") (
      update (codes "node_index") ((codes "idx", num v.idx) ∷ [])
        (where_key ((codes "instance", text v.instance) ∷ (codes "topic", text v.topic) ∷ [])))
