-- ===== src/Balance.antt =====
-- balance/balance_manager.go: how the accumulators go through the rows that are not yet processed. The
-- statements of one group of rows, and the query for the rows, are parameters.
pub mod Batches
pub mod Retries
pub mod Database
pub mod Outputs
pub mod Ledger
pub mod Hidden
pub mod Credited
pub mod Accounted
pub mod Groups
pub mod Made
pub mod Transactions
use axia_network_v2_magellan.Prelude.{
  ℕ, zero, suc, ◌+◌, Bool, true, false, ◌||◌, List, [], ◌∷◌, ◌++◌, Option, none, some,
  if◌then◌else◌, ltb, length,
}
use axia_network_v2_magellan.Prelude.Text.{Text, codes}
use axia_network_v2_magellan.Prelude.Result.{Result, ok, err}
use axia_network_v2_magellan.Strconv.{has_prefix}
use axia_network_v2_magellan.Db.Exec.{Exec, pure, ◌>>=◌, ◌>>◌}

abbrev pub row_limit_value : ℕ
row_limit_value = 5000

abbrev pub lock_size : ℕ
lock_size = 5

abbrev pub retry_processing : ℕ
retry_processing = 3

-- `strings.Contains(s, part)`
unfoldable pub contains : Text → Text → Bool
contains [] part = has_prefix [] part
contains (c ∷ s) part = has_prefix (c ∷ s) part || contains s part

unfoldable pub is_lock_error : Text → Bool
is_lock_error e =
    contains e (codes "Deadlock found when trying to get lock; try restarting transaction")
    || contains e (codes "Lock wait timeout exceeded; try restarting transaction")

-- The loops below have no bound, so each takes fuel: `none` says that it has not ended.
abbrev pub retried :
    {D : Type 0}
    → Option (Result Text Unit × D)
    → Result Text Unit × D
    → Option (Result Text Unit × D)
retried rest (ok u, d) = some (ok u, d)
retried rest (err e, d) = if is_lock_error e then rest else some (err e, d)

unfoldable pub repeat_for_lock : {D : Type 0} → Exec D Unit → ℕ → D → Option (Result Text Unit × D)
repeat_for_lock f zero d = none
repeat_for_lock f (suc fuel) d = let rest = repeat_for_lock f fuel (f d).1 in retried rest (f d)

-- The loop of `processOutputs` and of `processTransactions`, with the rows of the group so far. `post`
-- is the processing of a group, repeated while it meets locks.
unfoldable pub batch_loop : {D A : Type 0} → (List A → Exec D Unit) → List A → List A → Exec D Unit
batch_loop post [] [] = pure tt
batch_loop post [] (r ∷ trows) = post (r ∷ trows)
batch_loop post (row ∷ rows) trows =
    let trows' = trows ++ (row ∷ []) in
    if ltb lock_size (length trows')
    then post trows' >> batch_loop post rows []
    else batch_loop post rows trows'

-- `pre` loads the rows; the result is their number.
unfoldable pub process_rows : {D A : Type 0} → Exec D (List A) → (List A → Exec D Unit) → Exec D ℕ
process_rows pre post = do rows ← pre; batch_loop post rows []; pure (length rows)

-- How `runEvent` ends: after a round with fewer rows than the limit, by an error, or with the bound on
-- its rounds reached.
pub data Ended : Type 0 where
  caught_up : Ended
  failed : Text → Ended
  rounds_spent : Ended

-- After a round: whether the loop goes on
abbrev pub after_round : Result Text ℕ → Option Ended
after_round (ok cnt) = if ltb cnt row_limit_value then some caught_up else none
after_round (err e) = if is_lock_error e then none else some (failed e)

abbrev pub go_on : {D : Type 0} → Option Ended → Option (Ended × D) → D → Option (Ended × D)
go_on none rest d = rest
go_on (some ended) rest d = some (ended, d)

-- A round that goes on sets the counter to 0, before the loop increments it.
unfoldable pub run_event : {D : Type 0} → Exec D ℕ → ℕ → ℕ → D → Option (Ended × D)
run_event f zero icnt d = none
run_event f (suc fuel) icnt d =
    let rest = run_event f fuel 1 (f d).1 in
    if ltb icnt retry_processing
    then go_on (after_round (f d).0) rest (f d).1
    else some (rounds_spent, d)
