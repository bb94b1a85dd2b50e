-- ===== src/Tests/PoolRuns.antt =====
-- A row that is put into the channel and handled by a worker.
use axia_network_v2_magellan.Prelude.{
  ℕ, zero, suc, true, List, [], ◌∷◌, Option, some, ◌<◌, ◌≡◌, refl, arith,
}
use axia_network_v2_magellan.Prelude.Dict.{lookup, insert}
use axia_network_v2_magellan.Prelude.Text.{Text, codes, text_eq, text_beq}
use axia_network_v2_magellan.Prelude.Result.{ok}
use axia_network_v2_magellan.Db.Exec.{Exec, Session}
use axia_network_v2_magellan.Db.Columns.{Row}
use axia_network_v2_magellan.Db.Persist.{exec_tolerant, tolerant}
use axia_network_v2_magellan.Db.OneTable.{one_table, run}
use axia_network_v2_magellan.Db.Pool.{TxPool, update_tx_pool_status}
use axia_network_v2_magellan.Utils.IndexedList.{evict_loop, exists, new_indexed_list, push_front}
use axia_network_v2_magellan.Stream.Pool.{
  Reach, System, enqueue, enqueues, here, init, max_threads, next, waiting, work, works,
}
use axia_network_v2_magellan.Stream.Pool.Facts.{Handled}
use axia_network_v2_magellan.Stream.Pool.Handled.{listed-Handled}
use axia_network_v2_magellan.Stream.Pool.Drained.{Gets, local_tx_pool-drains}
use axia_network_v2_magellan.Tests.Setting.{noon}
use axia_network_v2_magellan.Tests.DbRows.{first_text, only_text}

abbrev World : Type 0
World = List (Text × Row)

abbrev pool : Session World
pool = one_table first_text only_text (codes "tx_pool")

-- Every topic has a processor, which succeeds.
abbrev fsm : Text → Option (TxPool → Exec World Unit)
fsm topic = some (λ row d. (ok tt, d))

abbrev message : TxPool
message = record {
  id = codes "row";
  network_id = 1;
  chain_id = codes "X";
  msg_key = codes "key";
  serialization = 7 ∷ [];
  processed = 0;
  topic = codes "1-X-decisions";
  created_at = noon;
}

abbrev worked : ℕ → System World → System World
worked zero c = c
worked (suc n) c = work pool fsm (worked n c) 0

abbrev queued : System World
queued = enqueue pool fsm (init []) message

first_worker : 0 < max_threads
first_worker = omega arith

works-Reach : (n : ℕ) → Reach pool fsm (init []) (worked n queued)
works-Reach zero = next here (enqueues message)
works-Reach (suc n) = next (works-Reach n) (works 0 first_worker)

message_listed : exists (worked 6 queued).indexed_list (codes "row") ≡ true
unfolding enqueue work exists push_front new_indexed_list evict_loop update_tx_pool_status
    exec_tolerant tolerant run lookup insert text_beq
message_listed = refl

listed-Handled_example : Handled pool fsm (init []) (codes "row") (worked 6 queued)
listed-Handled_example =
    listed-Handled pool fsm (init []) (λ i. refl) refl (works-Reach 6) (codes "row") message_listed

queued_idle : queued.place 0 ≡ waiting
unfolding enqueue
queued_idle = refl

local_tx_pool-drains_example : Gets pool fsm 0 first_worker queued waiting []
local_tx_pool-drains_example = local_tx_pool-drains pool fsm 0 first_worker queued queued_idle
