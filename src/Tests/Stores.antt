-- ===== src/Tests/Stores.antt =====
-- The bounded list, the cache, and the rounds of the accumulators.
use axia_network_v2_magellan.Prelude.{
  ◌||◌, ◌&&◌, ℕ, zero, suc, ◌≤◌, true, List, [], ◌∷◌, none, some, if◌then◌else◌, length, ◌≡◌, ◌≢◌,
  refl, arith,
}
use axia_network_v2_magellan.Prelude.Int.{pos, ltb_ℤ, ◌+ℤ◌}
use axia_network_v2_magellan.Prelude.Eq.{◌==◌, elem, nat_eq}
use axia_network_v2_magellan.Prelude.Text.{Text, codes, text_eq}
use axia_network_v2_magellan.Prelude.Result.{Result, ok, err}
use axia_network_v2_magellan.Strconv.{has_prefix}
use axia_network_v2_magellan.Utils.IndexedList.{exists, new_indexed_list, clamp_size, push_front}
use axia_network_v2_magellan.Utils.IndexedList.Valid
use axia_network_v2_magellan.Utils.IndexedList.Refines.{push_all, recent, exists-push_all}
use axia_network_v2_magellan.Utils.TtlMap.{
  LCache, delete_collected, get, look, pick, new_ttl_map, put,
}
use axia_network_v2_magellan.Utils.TtlMap.Bucket.{is_expired}
use axia_network_v2_magellan.Utils.TtlMap.Laws
use axia_network_v2_magellan.Balance.{
  contains, run_event, repeat_for_lock, rounds_spent, is_lock_error,
}
use axia_network_v2_magellan.Balance.Batches.{Grouped, batch_loop-Grouped}
use axia_network_v2_magellan.Balance.Retries.{
  settles, locked, run_event-unbounded, repeat_for_lock-Locks,
}

abbrev calls : List (ℕ × ℕ)
calls = (1, 10) ∷ (2, 20) ∷ (1, 11) ∷ (3, 30) ∷ []

exists-push_all_example :
    (exists (push_all calls (new_indexed_list (pos 2))) 1
      ≡ elem 1 (recent (clamp_size (pos 2)) calls []))
    × (length (recent (clamp_size (pos 2)) calls []) ≤ clamp_size (pos 2))
exists-push_all_example = exists-push_all (pos 2) calls 1

push_front-IsValid_example :
    Valid.IsValid {K = ℕ} {V = ℕ} (push_front 1 10 (new_indexed_list (pos 2)))
push_front-IsValid_example =
    Valid.push_front-IsValid (new_indexed_list (pos 2)) 1 10
      (Valid.new_indexed_list-IsValid (pos 2))

abbrev chksum : Text → ℕ
chksum k = 7

abbrev once : LCache
once = put chksum new_ttl_map (codes "k") (1 ∷ []) (pos 10) (pos 0)

once-IsValid : Laws.IsValid once
once-IsValid =
    Laws.put-IsValid chksum (λ k. omega arith) new_ttl_map (codes "k") (1 ∷ []) (pos 10) (pos 0)
      Laws.new_ttl_map-IsValid

get-put_example :
    get chksum (put chksum once (codes "k") (2 ∷ []) (pos 10) (pos 20)) (codes "k") (pos 25) ≡ (
      if codes "k" == codes "k"
      then (if ltb_ℤ (pos 20 +ℤ pos 10) (pos 25)
          then none
          else some (Laws.kept (Laws.entry chksum (λ k. omega arith) once (codes "k")) (2 ∷ [])))
      else get chksum once (codes "k") (pos 25))
get-put_example =
    Laws.get-put chksum (λ k. omega arith) once (codes "k") (codes "k") (2 ∷ []) (pos 10) (pos 20)
      (pos 25) once-IsValid

-- The key is collected after its time, and put again before it is deleted.
abbrev put_again : LCache
put_again = put chksum (look 7 (pos 15) once) (codes "k") (2 ∷ []) (pos 10) (pos 20)

put_again-IsValid : Laws.IsValid put_again
put_again-IsValid =
    Laws.put-IsValid chksum (λ k. omega arith) (look 7 (pos 15) once) (codes "k") (2 ∷ []) (pos 10)
      (pos 20) (Laws.look-IsValid 7 (pos 15) once once-IsValid)

get-delete_collected_example :
    (get chksum (delete_collected 0 (pos 22) put_again) (codes "k") (pos 25)
      ≡ get chksum put_again (codes "k") (pos 25))
    × (Laws.is_collected 7 (codes "k") (look 7 (pos 22) put_again).collected ≡ (
        Laws.is_collected 7 (codes "k") put_again.collected
        || is_expired (pos 22) (Laws.entry chksum (λ k. omega arith) put_again (codes "k"))))
    × (Laws.entry chksum (λ k. omega arith) (delete_collected 0 (pos 22) put_again) (codes "k") ≡ (
        if Laws.is_picked 7 (codes "k") (pick 0 put_again.collected)
          && is_expired (pos 22) (Laws.entry chksum (λ k. omega arith) put_again (codes "k"))
        then none
        else Laws.entry chksum (λ k. omega arith) put_again (codes "k")))
get-delete_collected_example =
    Laws.get-delete_collected chksum (λ k. omega arith) put_again (codes "k") 0 (pos 22) (pos 25)
      put_again-IsValid (omega arith)

batch_loop-Grouped_example : Grouped (List ℕ) {A = ℕ} (1 ∷ 2 ∷ 3 ∷ 4 ∷ 5 ∷ 6 ∷ 7 ∷ []) []
batch_loop-Grouped_example = batch_loop-Grouped (List ℕ) {A = ℕ} (1 ∷ 2 ∷ 3 ∷ 4 ∷ 5 ∷ 6 ∷ 7 ∷ [])

abbrev deadlock : Text
deadlock = codes "Deadlock found when trying to get lock; try restarting transaction"

-- Two locks, then no more.
abbrev lock_twice : ℕ → Result Text Unit × ℕ
lock_twice zero = (ok tt, zero)
lock_twice (suc n) = (err deadlock, n)

deadlock-is_lock_error : is_lock_error deadlock ≡ true
unfolding is_lock_error contains has_prefix
deadlock-is_lock_error = refl

repeat_for_lock-Locks_example : repeat_for_lock lock_twice 3 2 ≡ some (ok tt, 0)
repeat_for_lock-Locks_example =
    repeat_for_lock-Locks lock_twice 3
      (locked 1 2 1 deadlock (ok tt, 0) refl deadlock-is_lock_error
        (locked 0 1 0 deadlock (ok tt, 0) refl deadlock-is_lock_error
          (settles 0 (ok tt, 0) refl (λ e h. cc))))
      (omega arith)

run_event-unbounded_example : run_event (λ (d : ℕ). (ok 5000, suc d)) 6 0 0 ≢ some (rounds_spent, 3)
run_event-unbounded_example =
    run_event-unbounded (λ (d : ℕ). (ok 5000, suc d)) 6 0 0 3 (omega arith)
