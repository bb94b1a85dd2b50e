-- ===== src/Stream/Pool/Drained.antt =====
-- No message blocks the channel of stream/consumers/indexer.go.
use mathlib.Core.Path.{subst}
use axia_network_v2_magellan.Prelude.{
  ℕ, ◌<◌, Bool, true, false, List, [], ◌∷◌, Option, none, some, ◌≡◌, refl, sym, ap, arith,
}
use axia_network_v2_magellan.Prelude.Text.{Text, text_eq}
use axia_network_v2_magellan.Prelude.Result.{Result, ok, err}
use axia_network_v2_magellan.Db.Exec.{Exec, Session}
use axia_network_v2_magellan.Db.Pool.{TxPool, update_tx_pool_status}
use axia_network_v2_magellan.Utils.IndexedList.{exists}
use axia_network_v2_magellan.Stream.Pool.{
  LocalTxPoolJob, Place, Reach, Step, System, act, after_exists, after_process, after_update,
  cleared, here, if_no_err, marked, max_threads, next, process, processed, put_at, receive,
  received, err_of, unseen, waiting, work, works,
}

module _ {D : Type 0} (s : Session D) (fsm : Text → Option (TxPool → Exec D Unit)) (i : ℕ)
    (is_worker : i < max_threads) where
  -- Steps of the worker `i`, and no others: no other worker moves, nothing is sent, and the rest of the
  -- world changes nothing.
  pub data Alone (c : System D) : System D → Type 0 where
    idle : Alone c c
    works_on : {d : System D} → Alone c d → Alone c (work s fsm d i)

  -- The worker `i` alone gets from `c` to a state with the messages `jobs` in the channel, where it is at
  -- the place `x`; these are steps of the indexer.
  pub record Gets (c : System D) (x : Place) (jobs : List LocalTxPoolJob) : Type 0 where
    pub last : System D
    pub alone : Alone c last
    pub steps : Reach s fsm c last
    pub there : last.place i ≡ x
    pub left : last.local_tx_pool ≡ jobs

  put_here : {A : Type 0} (a : A) (f : ℕ → A) → put_at i a f i ≡ a
  put_here a f = ground arith

  work_at : (c : System D) (x : Place) → c.place i ≡ x → work s fsm c i ≡ act s fsm c i x
  unfolding work
  work_at c x e = ap (act s fsm c i) e

  Alone-cons : {c e : System D} → Alone (work s fsm c i) e → Alone c e
  Alone-cons idle = works_on idle
  Alone-cons (works_on r) = works_on (Alone-cons r)

  Alone-trans : {c d e : System D} → Alone c d → Alone d e → Alone c e
  Alone-trans r idle = r
  Alone-trans r (works_on r') = works_on (Alone-trans r r')

  Alone-act :
      (c : System D) (x : Place) {e : System D}
      → c.place i ≡ x
      → Alone (act s fsm c i x) e
      → Alone c e
  Alone-act c x {e} at_x r = Alone-cons (subst (λ d. Alone d e) (sym (work_at c x at_x)) r)

  Reach-cons : {c d e : System D} → Step s fsm c d → Reach s fsm d e → Reach s fsm c e
  Reach-cons st here = next here st
  Reach-cons st (next r st') = next (Reach-cons st r) st'

  Reach-trans : {c d e : System D} → Reach s fsm c d → Reach s fsm d e → Reach s fsm c e
  Reach-trans r here = r
  Reach-trans r (next r' st) = next (Reach-trans r r') st

  one_step : (c : System D) (x : Place) → c.place i ≡ x → Step s fsm c (act s fsm c i x)
  one_step c x e = subst (Step s fsm c) (work_at c x e) (works i is_worker)

  step_then :
      (c : System D) (x y : Place) (jobs : List LocalTxPoolJob)
      → c.place i ≡ x
      → Gets (act s fsm c i x) y jobs
      → Gets c y jobs
  step_then c x y jobs e g = record {
    last = g.last;
    alone = Alone-act c x e g.alone;
    steps = Reach-cons (one_step c x e) g.steps;
    there = g.there;
    left = g.left;
  }

  at_once : (c : System D) (x : Place) → c.place i ≡ x → Gets c x c.local_tx_pool
  at_once c x e = record { last = c; alone = idle; steps = here; there = e; left = refl }

  -- From each place, the worker comes back to the channel, and leaves the messages in it.
  back-marked :
      (c : System D) (job : LocalTxPoolJob)
      → c.place i ≡ marked job
      → Gets c waiting c.local_tx_pool
  back-marked c job e =
      step_then c (marked job) waiting c.local_tx_pool e
        (at_once (act s fsm c i (marked job)) waiting (put_here waiting c.place))

  back-processed :
      (c : System D) (job : LocalTxPoolJob)
      → c.place i ≡ processed job
      → Gets c waiting c.local_tx_pool
  back-processed c job e =
      step_then c (processed job) waiting c.local_tx_pool e
        (after (update_tx_pool_status s (record job.tx_pool { processed = 1 }) c.world))
    where
      after :
          (out : Result Text Unit × D)
          → Gets (after_update s fsm c i job out) waiting c.local_tx_pool
      after (ok u, d) =
          back-marked (after_update s fsm c i job (ok u, d)) job (put_here (marked job) c.place)
      after (err e', d) =
          at_once (after_update s fsm c i job (err e', d)) waiting (put_here waiting c.place)

  back-cleared :
      (c : System D) (job : LocalTxPoolJob)
      → c.place i ≡ cleared job
      → Gets c waiting c.local_tx_pool
  back-cleared c job e =
      step_then c (cleared job) waiting c.local_tx_pool e (by_topic (fsm job.tx_pool.topic))
    where
      after :
          (out : Result Text Unit × D)
          → Gets (after_process s fsm c i job out) waiting c.local_tx_pool
      after (ok u, d) =
          back-processed (after_process s fsm c i job (ok u, d)) job
            (put_here (processed job) c.place)
      after (err e', d) =
          at_once (after_process s fsm c i job (err e', d)) waiting (put_here waiting c.place)

      by_topic :
          (o : Option (TxPool → Exec D Unit))
          → Gets (process s fsm c i job o) waiting c.local_tx_pool
      by_topic none = at_once (process s fsm c i job none) waiting (put_here waiting c.place)
      by_topic (some p) = after (p job.tx_pool c.world)

  back-unseen :
      (c : System D) (job : LocalTxPoolJob)
      → c.place i ≡ unseen job
      → Gets c waiting c.local_tx_pool
  back-unseen c job e =
      step_then c (unseen job) waiting c.local_tx_pool e (tested (err_of job.round c.errs))
    where
      tested : (o : Option Text) → Gets (if_no_err s fsm c i job o) waiting c.local_tx_pool
      tested none = back-cleared (if_no_err s fsm c i job none) job (put_here (cleared job) c.place)
      tested (some e') =
          at_once (if_no_err s fsm c i job (some e')) waiting (put_here waiting c.place)

  back-received :
      (c : System D) (job : LocalTxPoolJob)
      → c.place i ≡ received job
      → Gets c waiting c.local_tx_pool
  back-received c job e =
      step_then c (received job) waiting c.local_tx_pool e
        (seen (exists c.indexed_list job.tx_pool.id))
    where
      seen : (b : Bool) → Gets (after_exists s fsm c i job b) waiting c.local_tx_pool
      seen true = at_once (after_exists s fsm c i job true) waiting (put_here waiting c.place)
      seen false =
          back-unseen (after_exists s fsm c i job false) job (put_here (unseen job) c.place)

  drains :
      (jobs : List LocalTxPoolJob) (c : System D)
      → c.local_tx_pool ≡ jobs
      → c.place i ≡ waiting
      → Gets c waiting []
  drains [] c e at_channel = record {
    last = c;
    alone = idle;
    steps = here;
    there = at_channel;
    left = e;
  }
  drains (job ∷ jobs) c e at_channel =
      let d : System D = receive s fsm c i (job ∷ jobs) in
      let g : Gets d waiting jobs = back-received d job (put_here (received job) c.place) in
      let g' = drains jobs g.last g.left g.there in
      step_then c waiting waiting [] at_channel (
        subst (λ (l : List LocalTxPoolJob). Gets (receive s fsm c i l) waiting []) (sym e)
          (record {
            last = g'.last;
            alone = Alone-trans g.alone g'.alone;
            steps = Reach-trans g.steps g'.steps;
            there = g'.there;
            left = g'.left;
          }))

  -- Whatever the messages are, and whatever the processors and the database answer: a worker that is at
  -- the channel can take all messages out of it by its own steps alone, and is at the channel again. An error,
  -- an unknown topic, or a row that was handled before never holds it up.
  pub local_tx_pool-drains : (c : System D) → c.place i ≡ waiting → Gets c waiting []
  local_tx_pool-drains c at_channel = drains c.local_tx_pool c refl at_channel
