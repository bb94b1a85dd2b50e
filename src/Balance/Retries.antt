-- ===== src/Balance/Retries.antt =====
-- The retries of balance/balance_manager.go.
use axia_network_v2_magellan.Prelude.{
  ℕ, zero, suc, ◌<◌, true, false, Option, none, some, ltb, lt→ltb, ◌≡◌, ◌≢◌, refl, ap, arith,
  Bool-cases, inl, inr,
}
use axia_network_v2_magellan.Prelude.Text.{Text}
use axia_network_v2_magellan.Prelude.Result.{Result, ok, err}
use axia_network_v2_magellan.Db.Exec.{Exec}
use axia_network_v2_magellan.Balance.{
  repeat_for_lock, retried, is_lock_error, run_event, after_round, go_on, Ended, rounds_spent,
  row_limit_value, retry_processing,
}

-- `n` runs of `f` from `d` meet a lock each, and the next one gives `out`.
pub data Locks {D : Type 0} (f : Exec D Unit) : ℕ → D → Result Text Unit × D → Type 0 where
  settles :
      (d : D) (out : Result Text Unit × D)
      → f d ≡ out
      → ((e : Text) → out.0 ≡ err e → is_lock_error e ≡ false)
      → Locks f zero d out
  locked :
      (n : ℕ) (d d' : D) (e : Text) (out : Result Text Unit × D)
      → f d ≡ (err e, d')
      → is_lock_error e ≡ true
      → Locks f n d' out
      → Locks f (suc n) d out

settle :
    {D : Type 0} (rest : Option (Result Text Unit × D)) (r : Result Text Unit) (d : D)
    → ((e : Text) → r ≡ err e → is_lock_error e ≡ false)
    → retried rest (r, d) ≡ some (r, d)
settle rest (ok u) d h = refl
settle rest (err e) d h = rw (h e refl) refl

-- A call that meets a lock a number of times and then succeeds, or fails in another way, is repeated
-- until then, on the state that each run left, and its last outcome is returned. So many runs and one
-- more are enough fuel.
pub repeat_for_lock-Locks :
    {D : Type 0} (f : Exec D Unit) {n : ℕ} {d : D} {out : Result Text Unit × D} (fuel : ℕ)
    → Locks f n d out
    → n < fuel
    → repeat_for_lock f fuel d ≡ some out
unfolding repeat_for_lock
repeat_for_lock-Locks f zero l h = elim h [ ]
repeat_for_lock-Locks f (suc fuel) (settles d out e h) k = rw e (settle _ out.0 out.1 h)
repeat_for_lock-Locks f (suc fuel) (locked n d d' e out q l more) k =
    rw (q, l) (repeat_for_lock-Locks f fuel more (omega (arith, k)))

not_spent : (r : Result Text ℕ) → after_round r ≢ some rounds_spent
not_spent (ok cnt) = elim (Bool-cases (ltb cnt row_limit_value)) [
  | inl e ↦ rw e (λ q. cc)
  | inr e ↦ rw e (λ q. cc)
]
not_spent (err e) = elim (Bool-cases (is_lock_error e)) [
  | inl q ↦ rw q (λ r. cc)
  | inr q ↦ rw q (λ r. cc)
]

go_on-ends :
    {D : Type 0} (o : Option Ended) (rest : Option (Ended × D)) (d end_state : D)
    → o ≢ some rounds_spent
    → rest ≢ some (rounds_spent, end_state)
    → go_on o rest d ≢ some (rounds_spent, end_state)
go_on-ends none rest d end_state h k = k
go_on-ends (some ended) rest d end_state h k =
    λ e. let q : ended ≡ rounds_spent = cc in h (ap some q)

-- Whatever the rounds do, the loop, which starts with its counter below 2, never ends by its bound on the
-- rounds, after any number of them.
pub run_event-unbounded :
    {D : Type 0} (f : Exec D ℕ) (fuel icnt : ℕ) (d end_state : D)
    → icnt < 2
    → run_event f fuel icnt d ≢ some (rounds_spent, end_state)
unfolding run_event
run_event-unbounded f zero icnt d end_state h = λ e. cc
run_event-unbounded f (suc fuel) icnt d end_state h =
    rw (lt→ltb icnt retry_processing (omega (arith, h))) (
      go_on-ends (after_round (f d).0) (run_event f fuel 1 (f d).1) (f d).1 end_state
        (not_spent (f d).0) (run_event-unbounded f fuel 1 (f d).1 end_state (omega arith)))
