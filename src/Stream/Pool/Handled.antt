-- ===== src/Stream/Pool/Handled.antt =====
-- What the indexer of stream/consumers/indexer.go has done with a row that it no longer takes.
use mathlib.Core.Path.{subst}
use axia_network_v2_magellan.Prelude.{
  ℕ, Bool, true, false, List, [], ◌∷◌, Option, none, some, length, ltb, ◌≡◌, refl, sym, ap,
}
use axia_network_v2_magellan.Prelude.Dict.{lookup}
use axia_network_v2_magellan.Prelude.Int.{pos}
use axia_network_v2_magellan.Prelude.Text.{Text, text_eq}
use axia_network_v2_magellan.Prelude.Result.{Result, ok, err}
use axia_network_v2_magellan.Db.Exec.{Exec, Session}
use axia_network_v2_magellan.Db.Pool.{TxPool, update_tx_pool_status}
use axia_network_v2_magellan.Utils.IndexedList.{exists, new_indexed_list}
use axia_network_v2_magellan.Utils.IndexedList.Valid
use axia_network_v2_magellan.Stream.Pool.{
  LocalTxPoolJob, Place, Reach, Step, System, act, changes, cleared, enqueue, enqueues, here,
  if_room, max_sized_list, max_tx_pool_size, after_exists, after_process, after_update, if_no_err,
  marked, next, process, err_of, receive, processed, received, sends, unseen, waiting, work, works,
}
use axia_network_v2_magellan.Stream.Pool.Facts.{
  Done, Facts, Facts-next, Facts-put, Fits, Handled, Handled-next, push-Facts,
}

false_ne_true : {B : Type 0} → false ≡ true → B
false_ne_true e = cc

module _ {D : Type 0} (s : Session D) (fsm : Text → Option (TxPool → Exec D Unit))
    (first : System D) where
  -- What holds of a state
  abbrev Holds : System D → Type 0
  Holds c = Facts s fsm first c c.indexed_list c.place

  process-Facts :
      (c : System D) (i : ℕ) (job : LocalTxPoolJob) (o : Option (TxPool → Exec D Unit))
      → Reach s fsm first c
      → fsm job.tx_pool.topic ≡ o
      → Step s fsm c (process s fsm c i job o)
      → Holds c
      → Holds (process s fsm c i job o)
  process-Facts c i job none r known st f = Facts-next st (Facts-put i waiting tt f)
  process-Facts c i job (some p) r known st f = ran (p job.tx_pool c.world) refl st
    where
      ran :
          (out : Result Text Unit × D)
          → p job.tx_pool c.world ≡ out
          → Step s fsm c (after_process s fsm c i job out)
          → Holds (after_process s fsm c i job out)
      ran (ok u, d) e st' =
          let f' = Facts-next st' f in
          Facts-put i (processed job)
            (record {
              processor = p;
              known = known;
              at = c;
              from_first = r;
              succeeded = ap (λ (out : Result Text Unit × D). out.0) e;
              to_last = next here st';
            })
            f'
      ran (err e', d) e st' = Facts-next st' (Facts-put i waiting tt f)

  update-Facts :
      (c : System D) (i : ℕ) (job : LocalTxPoolJob) (out : Result Text Unit × D)
      → Done s fsm first job.tx_pool c
      → update_tx_pool_status s (record job.tx_pool { processed = 1 }) c.world ≡ out
      → Step s fsm c (after_update s fsm c i job out)
      → Holds c
      → Holds (after_update s fsm c i job out)
  update-Facts c i job (ok u, d) done e st f =
      Facts-put i (marked job)
        (record {
          row = job.tx_pool;
          same_id = refl;
          at = c;
          done = done;
          updated = ap (λ (out : Result Text Unit × D). out.0) e;
          to_last = next here st;
        })
        (Facts-next st f)
  update-Facts c i job (err e', d) done e st f = Facts-next st (Facts-put i waiting tt f)

  act-Facts :
      (c : System D) (i : ℕ) (x : Place)
      → Reach s fsm first c
      → Fits s fsm first c x
      → Step s fsm c (act s fsm c i x)
      → Holds c
      → Holds (act s fsm c i x)
  act-Facts c i waiting r h st f = received_one c.local_tx_pool st
    where
      received_one :
          (jobs : List LocalTxPoolJob)
          → Step s fsm c (receive s fsm c i jobs)
          → Holds (receive s fsm c i jobs)
      received_one [] st' = f
      received_one (job ∷ jobs) st' = Facts-next st' (Facts-put i (received job) tt f)
  act-Facts c i (received job) r h st f = seen (exists c.indexed_list job.tx_pool.id) st
    where
      seen :
          (b : Bool)
          → Step s fsm c (after_exists s fsm c i job b)
          → Holds (after_exists s fsm c i job b)
      seen true st' = Facts-next st' (Facts-put i waiting tt f)
      seen false st' = Facts-next st' (Facts-put i (unseen job) tt f)
  act-Facts c i (unseen job) r h st f = tested (err_of job.round c.errs) st
    where
      tested :
          (o : Option Text)
          → Step s fsm c (if_no_err s fsm c i job o)
          → Holds (if_no_err s fsm c i job o)
      tested none st' = Facts-next st' (Facts-put i (cleared job) tt f)
      tested (some e) st' = Facts-next st' (Facts-put i waiting tt f)
  act-Facts c i (cleared job) r h st f = process-Facts c i job (fsm job.tx_pool.topic) r refl st f
  act-Facts c i (processed job) r h st f =
      update-Facts c i job (update_tx_pool_status s (record job.tx_pool { processed = 1 }) c.world)
        h refl st f
  act-Facts c i (marked job) r h st f =
      push-Facts job.tx_pool.id (Handled-next st h) (Facts-next st (Facts-put i waiting tt f))

  step-Facts : {c d : System D} → Reach s fsm first c → Step s fsm c d → Holds c → Holds d
  unfolding work enqueue
  step-Facts {c} r (works i h) f = act-Facts c i (c.place i) r (f.places i) (works i h) f
  step-Facts r (sends round read_messages txp h) f = Facts-next (sends round read_messages txp h) f
  step-Facts {c} r (enqueues pool) f =
      sent (ltb (length c.local_tx_pool) max_tx_pool_size) (enqueues pool)
    where
      sent :
          (b : Bool)
          → Step s fsm c (if_room s fsm c (record { tx_pool = pool; round = none }) b)
          → Holds (if_room s fsm c (record { tx_pool = pool; round = none }) b)
      sent true st = Facts-next st f
      sent false st = f
  step-Facts r (changes d) f = Facts-next (changes d) f

  reach-Facts :
      {c : System D}
      → ((i : ℕ) → first.place i ≡ waiting)
      → first.indexed_list ≡ new_indexed_list (pos max_sized_list)
      → Reach s fsm first c
      → Holds c
  unfolding new_indexed_list exists lookup
  reach-Facts idle empty here = record {
    valid = subst Valid.IsValid (sym empty) (Valid.new_indexed_list-IsValid (pos max_sized_list));
    listed = λ id h. false_ne_true (subst (λ l. exists l id ≡ true) empty h);
    places = λ i. subst (Fits s fsm first first) (sym (idle i)) tt;
  }
  reach-Facts idle empty (next r st) = step-Facts r st (reach-Facts idle empty r)

  -- Where the first state has no row in the bounded list and every worker at the channel: in each state
  -- that the indexer gets to, a row of the list was handled before. The processor of its topic succeeded
  -- on it, and after that it was marked as processed without an error.
  pub listed-Handled :
      {c : System D}
      → ((i : ℕ) → first.place i ≡ waiting)
      → first.indexed_list ≡ new_indexed_list (pos max_sized_list)
      → Reach s fsm first c
      → (id : Text) → exists c.indexed_list id ≡ true
      → Handled s fsm first id c
  listed-Handled idle empty r id h = (reach-Facts idle empty r).listed id h
