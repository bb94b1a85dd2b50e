-- ===== src/Stream/Producer.antt =====
-- stream/producer_chain.go: the containers of a node's index become rows of the pool, from the index that
-- the producer keeps in the database. The client of the node is a parameter.
pub mod Covered
pub mod Progress
pub mod Reached
use axia_network_v2_magellan.Prelude.{
  ℕ, ◌+◌, ◌%◌, ◌^◌, Bool, true, false, ◌&&◌, ◌||◌, List, [], ◌∷◌, Option, none, some, if◌then◌else◌,
  length,
}
use axia_network_v2_magellan.Prelude.Eq.{◌==◌}
use axia_network_v2_magellan.Prelude.Int.{ℤ}
use axia_network_v2_magellan.Prelude.Text.{Text, codes, text_eq}
use axia_network_v2_magellan.Prelude.Result.{Result, ok, err}
use axia_network_v2_magellan.Strconv.{has_prefix}
use axia_network_v2_magellan.Params.Query.{Ident}
use axia_network_v2_magellan.Db.Exec.{Exec, Session, for_each, lift, pure, ◌>>=◌, ◌>>◌}
use axia_network_v2_magellan.Db.Pool.{
  NodeIndex, TxPool, insert_node_index, insert_tx_pool, update_node_index,
}
use axia_network_v2_magellan.Db.Queries.{Reads}
use axia_network_v2_magellan.Db.Queries.Accumulated.{query_node_index}
use axia_network_v2_magellan.Axc.Node.{Node}
use axia_network_v2_magellan.Axc.Outputs.{compute_id}
use axia_network_v2_magellan.Balance.{contains}

abbrev pub max_tx_read : ℕ
max_tx_read = 500

pub record Container : Type 0 where
  pub id : Ident
  pub bytes : List ℕ
  pub timestamp : ℤ

-- `producerChainContainer` with what it calls: `enqueue` is `Control.Enqueue`, and `is_axchain` says that
-- the index is that of the contract chain.
pub record Producer (D : Type 0) : Type 0 where
  pub session : Session D
  pub reads : Reads D
  pub node : Node
  pub get_container_range : ℕ → ℕ → Exec D (List Container)
  pub enqueue : TxPool → D → D
  pub network_id : ℕ
  pub chain_id : Text
  pub node_instance : Text
  pub topic : Text
  pub is_axchain : Bool
  pub perform_updates : Bool

-- `ErrNoMessage`
abbrev pub no_message : Text
no_message = codes "no message"

unfoldable pub index_not_ready : Text → Bool
index_not_ready e =
    has_prefix e (codes "start index") && contains e (codes "last accepted index")
    || has_prefix e (codes "received status code '404'")

unfoldable pub chain_not_ready : Text → Bool
chain_not_ready e =
    has_prefix e (codes "no containers have been accepted")
    || has_prefix e (codes "received status code '404'")

module _ {D : Type 0} (p : Producer D) where
  -- The id of a container's message
  abbrev pub msg_id : Container → Result Text Ident
  msg_id c = if p.is_axchain then ok c.id else p.node.to_id (p.node.compute_hash256 c.bytes)

  abbrev pub row_of : Container → Ident → Text → TxPool
  row_of c msg id = record {
    id = id;
    network_id = p.network_id;
    chain_id = p.chain_id;
    msg_key = p.node.id_string msg;
    serialization = c.bytes;
    processed = 0;
    topic = p.topic;
    created_at = record { sec = c.timestamp; nsec = 0 };
  }

  -- `TxPool.ComputeID`
  abbrev pub pool_id : Ident → Result Text Text
  pool_id msg = compute_id p.node (p.node.id_string msg ∷ p.topic ∷ [])

  abbrev enqueued : TxPool → Exec D Unit
  enqueued pool d = (ok tt, p.enqueue pool d)

  -- `UpdateTxPool`
  unfoldable pub update_tx_pool : TxPool → Exec D Unit
  update_tx_pool pool = insert_tx_pool p.session pool >> enqueued pool

  -- The loop over the containers
  unfoldable pub store_container : Container → Exec D Unit
  store_container c = do
    msg ← lift (msg_id c)
    id ← lift (pool_id msg)
    update_tx_pool (row_of c msg id)

  abbrev pub index_row : ℕ → NodeIndex
  index_row idx = record { instance = p.node_instance; topic = p.topic; idx = idx }

  -- The index after the containers, once they are all stored
  unfoldable pub store_containers : ℕ → List Container → Exec D ℕ
  store_containers idx cs = do
    for_each store_container cs
    let next = (idx + length cs) % 2 ^ 64
    update_node_index p.session (index_row next)
    pure next

  abbrev pub after_fetch : ℕ → Result Text (List Container) × D → Result Text ℕ × D
  after_fetch idx (err e, d) = if index_not_ready e then (ok idx, d) else (err e, d)
  after_fetch idx (ok [], d) = (err no_message, d)
  after_fetch idx (ok (c ∷ cs), d) = store_containers idx (c ∷ cs) d

  -- `ProcessNextMessage` at the index `idx`: the index after it, or an error, which leaves `idx`.
  unfoldable pub process_next_message : ℕ → Exec D ℕ
  process_next_message idx d = after_fetch idx (p.get_container_range idx max_tx_read d)

  -- `getIndex`
  abbrev pub got_index : Result Text NodeIndex × D → Result Text ℕ × D
  got_index (ok row, d) = (ok row.idx, d)
  got_index (err e, d) = (err e, d)

  unfoldable pub get_index : Exec D ℕ
  get_index d = got_index (query_node_index p.reads (index_row 0) d, d)

  -- `newContainer`
  unfoldable pub new_container : Exec D ℕ
  new_container = insert_node_index p.session (index_row 0) p.perform_updates >> get_index

  -- The switch of `processNextMessage`: whether the loop of `runProcessor` goes on after an error
  unfoldable pub goes_on : Text → Bool
  goes_on e = e == codes "context deadline exceeded" || e == no_message || chain_not_ready e

  -- The database, and the index that `runProcessor` has in memory while it runs
  pub record System : Type 0 where
    pub world : D
    pub running : Option ℕ

  abbrev pub started : Result Text ℕ × D → System
  started (ok idx, d) = record { world = d; running = some idx }
  started (err e, d) = record { world = d; running = none }

  abbrev pub processed : ℕ → Result Text ℕ × D → System
  processed idx (ok next, d) = record { world = d; running = some next }
  processed idx (err e, d) = record { world = d; running = if goes_on e then some idx else none }

  -- `Listen` and `runProcessor`: a processor starts, takes messages, and ends by an error or because it
  -- is stopped; another starts after it. The others' changes to the database are those of `Foreign`.
  pub data Step (Foreign : D → D → Type 0) : System → System → Type 0 where
    starts :
        (d : D) → Step Foreign (record { world = d; running = none }) (started (new_container d))
    processes :
        (d : D) (idx : ℕ)
        → Step Foreign
            (record { world = d; running = some idx })
            (processed idx (process_next_message idx d))
    stops : (c : System) → Step Foreign c (record c { running = none })
    changes : (c : System) (d : D) → Foreign c.world d → Step Foreign c (record c { world = d })

  pub data Reach (Foreign : D → D → Type 0) (c : System) : System → Type 0 where
    here : Reach Foreign c c
    next : {c' c'' : System} → Reach Foreign c c' → Step Foreign c' c'' → Reach Foreign c c''
