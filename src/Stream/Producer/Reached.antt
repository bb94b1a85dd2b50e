-- ===== src/Stream/Producer/Reached.antt =====
-- The steps of a producer of stream/producer_chain.go leave each container below its indexes in the pool.
use mathlib.Core.Path.{subst}
use axia_network_v2_magellan.Prelude.{
  ℕ, Bool, Option, none, some, ◌≡◌, refl, sym, inl, inr, Bool-cases,
}
use axia_network_v2_magellan.Prelude.Text.{Text}
use axia_network_v2_magellan.Prelude.Result.{Result, ok, err}
use axia_network_v2_magellan.Db.Exec.{continue, ◌>>=◌}
use axia_network_v2_magellan.Db.Pool.{NodeIndex, insert_node_index}
use axia_network_v2_magellan.Db.Queries.Accumulated.{query_node_index}
use axia_network_v2_magellan.Stream.Producer.{
  Container, Producer, Reach, Step, System, changes, get_index, goes_on, got_index, here, index_row,
  new_container, next, process_next_message, processed, processes, started, starts, stops,
}
use axia_network_v2_magellan.Stream.Producer.Covered.{
  IsRunningBelow, Below, Below-later, IsCovered, IsPool, Keeps, Moves,
}
use axia_network_v2_magellan.Stream.Producer.Progress.{
  IsGood, kept-Lower, moved-Lower, none_lower, process-IsGood, start-Moved,
}

module _ {D : Type 0} (p : Producer D) (stored : Text → D → Bool) (saved : D → ℕ)
    (log : ℕ → Container) (pool : IsPool p stored saved log) where
  abbrev Lower : ℕ → D → Type 0
  Lower n d = Below p stored saved log n d

  abbrev Kept : D → D → Type 0
  Kept = Keeps p stored saved

  abbrev Moved : ℕ → D → D → Type 0
  Moved = Moves p stored saved

  IsCoveredBy : System p → Type 0
  IsCoveredBy c = IsCovered p stored saved log c

  after_start :
      (d d1 : D) (r : Result Text Unit)
      → Moved 0 d d1
      → Lower (saved d) d
      → IsCoveredBy (started p (continue r (λ u. get_index p) d1))
  unfolding get_index IsCoveredBy
  after_start d d1 (err e) m b = record {
    by_saved =
        moved-Lower p stored saved log pool 0 d d1 m b (none_lower p stored saved log pool d);
    by_running = tt;
  }
  after_start d d1 (ok u) m b = by_query (query_node_index p.reads (index_row p 0) d1) refl
    where
      by_query :
          (q : Result Text NodeIndex)
          → query_node_index p.reads (index_row p 0) d1 ≡ q
          → IsCoveredBy (started p (got_index p (q, d1)))
      by_query (ok row) e = record {
        by_saved =
            moved-Lower p stored saved log pool 0 d d1 m b (none_lower p stored saved log pool d);
        by_running =
            subst (λ (n : ℕ). Lower n d1) (sym (pool.reads_index d1 row e))
              (moved-Lower p stored saved log pool 0 d d1 m b
                (none_lower p stored saved log pool d));
      }
      by_query (err e') e = record {
        by_saved =
            moved-Lower p stored saved log pool 0 d d1 m b (none_lower p stored saved log pool d);
        by_running = tt;
      }

  start-IsCovered : (d : D) → Lower (saved d) d → IsCoveredBy (started p (new_container p d))
  unfolding new_container ◌>>=◌
  start-IsCovered d b =
      let out = insert_node_index p.session (index_row p 0) p.perform_updates d in
      after_start d out.1 out.0 (start-Moved p stored saved log pool d) b

  processed-IsCovered :
      (idx : ℕ) (out : Result Text ℕ × D)
      → IsGood p stored saved log pool idx out
      → IsCoveredBy (processed p idx out)
  unfolding IsCoveredBy
  processed-IsCovered idx (ok n, d) g = record { by_saved = g.by_saved; by_running = g.by_next }
  processed-IsCovered idx (err e, d) g = elim (Bool-cases (goes_on p e)) [
    | inl on ↦ rw on (record { by_saved = g.by_saved; by_running = g.by_idx })
    | inr off ↦ rw off (record { by_saved = g.by_saved; by_running = tt })
  ]

  running-later :
      (o : Option ℕ) (d d' : D)
      → Kept d d'
      → IsRunningBelow p stored saved log o d
      → IsRunningBelow p stored saved log o d'
  running-later none d d' k h = tt
  running-later (some idx) d d' k h = Below-later p stored saved log pool idx d d' k.rows h

  step-IsCovered : {c c' : System p} → Step p Kept c c' → IsCoveredBy c → IsCoveredBy c'
  unfolding IsCoveredBy
  step-IsCovered (starts d) h = start-IsCovered d h.by_saved
  step-IsCovered (processes d idx) h =
      processed-IsCovered idx (process_next_message p idx d)
        (process-IsGood p stored saved log pool idx d h.by_saved h.by_running)
  step-IsCovered (stops c) h = record { by_saved = h.by_saved; by_running = tt }
  step-IsCovered (changes c d k) h = record {
    by_saved = kept-Lower p stored saved log pool c.world d k h.by_saved;
    by_running = running-later c.running c.world d k h.by_running;
  }

  -- Where a producer has not begun and its saved index is 0, and the others leave the rows of the pool and
  -- its index in place: in each state that it gets to, whatever fails and whenever it stops and starts
  -- again, the row of each container below the saved index, and below the index in memory, is in the
  -- pool. So it never skips a container.
  pub world-IsCovered :
      (d : D)
      → saved d ≡ 0
      → {c : System p} → Reach p Kept (record { world = d; running = none }) c
      → IsCovered p stored saved log c
  unfolding IsCoveredBy
  world-IsCovered d empty here = record {
    by_saved = subst (λ (n : ℕ). Lower n d) (sym empty) (none_lower p stored saved log pool d);
    by_running = tt;
  }
  world-IsCovered d empty (next r st) = step-IsCovered st (world-IsCovered d empty r)
