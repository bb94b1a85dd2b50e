-- ===== src/Db/Queries.antt =====
-- db/dbmodel.go: the methods of `persist` that load a row. `dbr` fills the fields whose names are those of
-- selected columns, leaves the others zero, and drops a column that no field is named as.
pub mod Ledger
pub mod Accumulated
pub mod Chains
pub mod Contract
pub mod RoundTrip
use axia_network_v2_magellan.Prelude.{ℕ, Bool, false, List, [], Option, none, some}
use axia_network_v2_magellan.Prelude.Text.{Text, text_eq}
use axia_network_v2_magellan.Prelude.Result.{Result, ok, err}
use axia_network_v2_magellan.Prelude.Dict.{lookup}
use axia_network_v2_magellan.Params.Query.{Time, zero_time}
use axia_network_v2_magellan.Db.Exec.{Value, text, num, bytes, flag, time, Cond}
use axia_network_v2_magellan.Db.Columns.{Row}

-- `LoadOne`: the selected columns of the first row of a table for which the conditions hold, by the
-- names that they are selected as, or the text of an error.
pub record Reads (D : Type 0) : Type 0 where
  pub load_one : Text → List Text → List Cond → D → Result Text Row

abbrev pub loaded : {A : Type 0} → (Row → A) → Result Text Row → Result Text A
loaded f (ok r) = ok (f r)
loaded f (err e) = err e

abbrev pub as_text : Option Value → Text
as_text (some (text x)) = x
as_text other = []

abbrev pub text_at : Text → Row → Text
text_at c r = as_text (lookup c r)

abbrev pub as_num : Option Value → ℕ
as_num (some (num x)) = x
as_num other = 0

abbrev pub num_at : Text → Row → ℕ
num_at c r = as_num (lookup c r)

abbrev pub as_flag : Option Value → Bool
as_flag (some (flag x)) = x
as_flag other = false

abbrev pub flag_at : Text → Row → Bool
flag_at c r = as_flag (lookup c r)

abbrev pub as_time : Option Value → Time
as_time (some (time x)) = x
as_time other = zero_time

abbrev pub time_at : Text → Row → Time
time_at c r = as_time (lookup c r)

abbrev pub as_nullable : Option Value → Option (List ℕ)
as_nullable (some (bytes x)) = x
as_nullable other = none

abbrev pub nullable_at : Text → Row → Option (List ℕ)
nullable_at c r = as_nullable (lookup c r)

abbrev pub not_null : Option (List ℕ) → List ℕ
not_null none = []
not_null (some b) = b

abbrev pub bytes_at : Text → Row → List ℕ
bytes_at c r = not_null (nullable_at c r)
