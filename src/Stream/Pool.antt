-- ===== src/Stream/Pool.antt =====
-- stream/consumers/indexer.go and servicesctrl/services_control.go: the pool of messages, the reader
-- that fills the channel, and the workers that empty it, in any order. A message is run by the processor
-- of its topic, which is a parameter; a row that was handled is then marked and put in the bounded list.
pub mod Facts
pub mod Handled
pub mod Drained
use axia_network_v2_magellan.Prelude.{
  ℕ, ◌+◌, ◌≤◌, ◌<◌, Bool, true, false, List, [], ◌∷◌, ◌++◌, Option, none, some, if◌then◌else◌,
  length, ltb, nat_beq, ◌≡◌,
}
use axia_network_v2_magellan.Prelude.Int.{pos}
use axia_network_v2_magellan.Prelude.Text.{Text, text_eq}
use axia_network_v2_magellan.Prelude.Result.{Result, ok, err}
use axia_network_v2_magellan.Db.Exec.{Exec, Session}
use axia_network_v2_magellan.Db.Pool.{TxPool, update_tx_pool_status}
use axia_network_v2_magellan.Utils.IndexedList.{IndexedList, exists, new_indexed_list, push_front}

abbrev pub max_threads : ℕ
max_threads = 10

abbrev pub max_tx_pool_size : ℕ
max_tx_pool_size = 10000

abbrev pub max_sized_list : ℕ
max_sized_list = 20000

abbrev pub maximum_records_read : ℕ
maximum_records_read = 10000

-- `LocalTxPoolJob`: the row, and the number of the reader's round whose error it shares, if any.
pub record LocalTxPoolJob : Type 0 where
  pub tx_pool : TxPool
  pub round : Option ℕ

-- Where a worker is: at the channel; with a message that it received, that is not in the bounded list,
-- and whose round has no error; with one whose processor has succeeded, and with one whose row is
-- marked too. A processor's run is one step, since its statements are one transaction.
pub data Place : Type 0 where
  waiting : Place
  received unseen cleared processed marked : LocalTxPoolJob → Place

pub record System (D : Type 0) : Type 0 where
  pub world : D
  pub local_tx_pool : List LocalTxPoolJob
  pub indexed_list : IndexedList Text Text
  pub errs : ℕ → Option Text
  pub place : ℕ → Place

-- The state that `Init` makes, and no worker at work
abbrev pub init : {D : Type 0} → D → System D
init d = record {
  world = d;
  local_tx_pool = [];
  indexed_list = new_indexed_list (pos max_sized_list);
  errs = λ b. none;
  place = λ i. waiting;
}

abbrev pub put_at : {A : Type 0} → ℕ → A → (ℕ → A) → ℕ → A
put_at i a f j = if nat_beq i j then a else f j

-- The value of the round's error, if the message has a round.
abbrev pub err_of : Option ℕ → (ℕ → Option Text) → Option Text
err_of none errs = none
err_of (some b) errs = errs b

abbrev pub set_err : Option ℕ → Text → (ℕ → Option Text) → ℕ → Option Text
set_err none e errs = errs
set_err (some b) e errs = put_at b (some e) errs

module _ {D : Type 0} (s : Session D) (fsm : Text → Option (TxPool → Exec D Unit)) where
  -- `p.Process`, if the topic is known
  abbrev pub after_process : System D → ℕ → LocalTxPoolJob → Result Text Unit × D → System D
  after_process c i job (ok u, d) = record c { world = d; place = put_at i (processed job) c.place }
  after_process c i job (err e, d) = record c {
    world = d;
    errs = set_err job.round e c.errs;
    place = put_at i waiting c.place;
  }

  abbrev pub process : System D → ℕ → LocalTxPoolJob → Option (TxPool → Exec D Unit) → System D
  process c i job none = record c { place = put_at i waiting c.place }
  process c i job (some p) = after_process c i job (p job.tx_pool c.world)

  abbrev pub if_no_err : System D → ℕ → LocalTxPoolJob → Option Text → System D
  if_no_err c i job none = record c { place = put_at i (cleared job) c.place }
  if_no_err c i job (some e) = record c { place = put_at i waiting c.place }

  -- `updateTxPollStatus` with the row's `Processed` set to 1
  abbrev pub after_update : System D → ℕ → LocalTxPoolJob → Result Text Unit × D → System D
  after_update c i job (ok u, d) = record c { world = d; place = put_at i (marked job) c.place }
  after_update c i job (err e, d) = record c {
    world = d;
    errs = set_err job.round e c.errs;
    place = put_at i waiting c.place;
  }

  -- `handleTxPool`: what the worker `i` does next. The channel is empty, and it waits; or it receives
  -- the first message.
  abbrev pub receive : System D → ℕ → List LocalTxPoolJob → System D
  receive c i [] = c
  receive c i (job ∷ jobs) = record c {
    local_tx_pool = jobs;
    place = put_at i (received job) c.place;
  }

  abbrev pub after_exists : System D → ℕ → LocalTxPoolJob → Bool → System D
  after_exists c i job true = record c { place = put_at i waiting c.place }
  after_exists c i job false = record c { place = put_at i (unseen job) c.place }

  abbrev pub act : System D → ℕ → Place → System D
  act c i waiting = receive c i c.local_tx_pool
  act c i (received job) = after_exists c i job (exists c.indexed_list job.tx_pool.id)
  act c i (unseen job) = if_no_err c i job (err_of job.round c.errs)
  act c i (cleared job) = process c i job (fsm job.tx_pool.topic)
  act c i (processed job) =
      after_update c i job (update_tx_pool_status s (record job.tx_pool { processed = 1 }) c.world)
  act c i (marked job) = record c {
    indexed_list = push_front job.tx_pool.id job.tx_pool.id c.indexed_list;
    place = put_at i waiting c.place;
  }

  unfoldable pub work : System D → ℕ → System D
  work c i = act c i (c.place i)

  -- The reader sends a row of its query for its round, after `read_messages` others of it.
  pub record CanSend (c : System D) (round read_messages : ℕ) (txp : TxPool) : Type 0 where
    pub no_err : c.errs round ≡ none
    pub few : read_messages ≤ maximum_records_read
    pub new : exists c.indexed_list txp.id ≡ false
    pub room : length c.local_tx_pool < max_tx_pool_size

  abbrev pub send : System D → LocalTxPoolJob → System D
  send c job = record c { local_tx_pool = c.local_tx_pool ++ (job ∷ []) }

  abbrev pub if_room : System D → LocalTxPoolJob → Bool → System D
  if_room c job true = send c job
  if_room c job false = c

  -- `Enqueue` of a producer, which drops a row when the channel is full
  unfoldable pub enqueue : System D → TxPool → System D
  enqueue c pool =
      if_room c (record { tx_pool = pool; round = none })
        (ltb (length c.local_tx_pool) max_tx_pool_size)

  -- One step of the indexer: of a worker, of the reader, of a producer, or of another user of the
  -- database.
  pub data Step (c : System D) : System D → Type 0 where
    works : (i : ℕ) → i < max_threads → Step c (work c i)
    sends :
        (round read_messages : ℕ) (txp : TxPool)
        → CanSend c round read_messages txp
        → Step c (send c (record { tx_pool = txp; round = some round }))
    enqueues : (pool : TxPool) → Step c (enqueue c pool)
    changes : (d : D) → Step c (record c { world = d })

  pub data Reach (c : System D) : System D → Type 0 where
    here : Reach c c
    next : {c' c'' : System D} → Reach c c' → Step c' c'' → Reach c c''
