-- ===== src/Params/Query.antt =====
-- services/indexes/params/query.go: reading one parameter of a query string. The parsers of other
-- packages, and of RFC 3339 times and durations, are the fields of `Env`.
use axia_network_v2_magellan.Prelude.{
  ℕ, ◌*◌, ◌^◌, Bool, true, false, ◌&&◌, List, [], ◌∷◌, Option, none, some, ltb, nat_beq,
  if◌then◌else◌,
}
use axia_network_v2_magellan.Prelude.Int.{ℤ, pos, negsuc, ◌+ℤ◌}
use axia_network_v2_magellan.Prelude.Dict.{lookup}
use axia_network_v2_magellan.Prelude.Text.{Text, codes, text_eq}
use axia_network_v2_magellan.Prelude.Result.{Result, ok, err, ◌>>=◌}
use axia_network_v2_magellan.Strconv.{atoi, parse_bool, trim_prefix}

-- The errors of this package, and `external` for those of the packages that it calls.
pub data Error : Type 0 where
  num_error : Error
  offset_deprecated : Error
  index_out_of_range : Error
  external : Text → Error

-- `url.Values`
abbrev pub Values : Type 0
Values = List (Text × List Text)

-- An `ids.ID` or `ids.ShortID`, by its bytes.
abbrev pub Ident : Type 0
Ident = List ℕ

-- A `time.Time` in UTC: seconds of Unix time, and nanoseconds within the second.
pub record Time : Type 0 where
  pub sec : ℤ
  pub nsec : ℕ

-- `time.Time{}` is the first of January of year 1.
abbrev pub zero_time : Time
zero_time = record { sec = negsuc 62135596799; nsec = 0 }

abbrev pub int_beq : ℤ → ℤ → Bool
int_beq (pos a) (pos b) = nat_beq a b
int_beq (pos a) (negsuc b) = false
int_beq (negsuc a) (pos b) = false
int_beq (negsuc a) (negsuc b) = nat_beq a b

unfoldable pub is_zero : Time → Bool
is_zero t = int_beq t.sec zero_time.sec && nat_beq t.nsec 0

-- `t.Round(time.Second)`: half a second and more is rounded up.
unfoldable pub round_second : Time → Time
round_second t =
    if ltb (2 * t.nsec) 1000000000
    then record { sec = t.sec; nsec = 0 }
    else record { sec = t.sec +ℤ pos 1; nsec = 0 }

pub record Env : Type 0 where
  pub now : Time
  pub parse_rfc3339 : Text → Result Error Time
  pub parse_duration : Text → Result Error ℤ
  pub id_from_string : Text → Result Error Ident
  pub id_string : Ident → Text
  pub short_from_string : Text → Result Error Ident
  pub parse_bech32 : Text → Result Error (List ℕ)
  pub to_short_id : List ℕ → Result Error Ident
  pub short_string : Ident → Text
  pub to_lower : Text → Text

-- `q[key]`, nil for a missing key
unfoldable pub values : Values → Text → List Text
values q key = elim (lookup key q) [ none ↦ [] | some strs ↦ strs ]

abbrev pub num : {A : Type 0} → Option A → Result Error A
num none = err num_error
num (some a) = ok a

abbrev pub first_or {ℓ} : {A : Type ℓ} → List Text → A → (Text → A) → A
first_or [] default parse = default
first_or (s ∷ strs) default parse = parse s

unfoldable pub get_query_int : Values → Text → ℤ → Result Error ℤ
get_query_int q key default_val = first_or (values q key) (ok default_val) (λ s. num (atoi s))

unfoldable pub get_query_bool : Values → Text → Bool → Result Error Bool
get_query_bool q key default_val =
    first_or (values q key) (ok default_val) (λ s. num (parse_bool s))

unfoldable pub get_query_string : Values → Text → Text → Text
get_query_string q key default_val = first_or (values q key) default_val (λ s. s)

-- The three cases for the first string: seconds of Unix time, an RFC 3339 time, or an error.
abbrev pub parse_time : Env → Text → Result Error (Bool × Time)
parse_time env s = elim (atoi s) [
  | some timestamp ↦ ok (true, record { sec = timestamp; nsec = 0 })
  | none ↦ env.parse_rfc3339 s >>= λ t. ok (true, t)
]

unfoldable pub get_query_time : Env → Values → Text → Result Error (Bool × Time)
get_query_time env q key = first_or (values q key) (ok (false, zero_time)) (parse_time env)

abbrev pub optional : Text → (Text → Result Error Ident) → Result Error (Option Ident)
optional [] parse = ok none
optional (c ∷ s) parse = parse (c ∷ s) >>= λ id. ok (some id)

unfoldable pub get_query_id : Env → Values → Text → Result Error (Option Ident)
get_query_id env q key = optional (get_query_string q key []) env.id_from_string

abbrev pub minute : ℕ
minute = 60 * 10 ^ 9

abbrev pub day : ℕ
day = 1440 * minute

-- Durations are in nanoseconds.
abbrev pub interval_names : List (Text × ℤ)
interval_names =
    (codes "minute", pos minute)
    ∷ (codes "hour", pos (60 * minute))
    ∷ (codes "day", pos day)
    ∷ (codes "week", pos (7 * day))
    ∷ (codes "month", pos (30 * day))
    ∷ (codes "year", pos (365 * day))
    ∷ (codes "all", pos 0)
    ∷ []

unfoldable pub get_query_interval : Env → Values → Text → Result Error ℤ
get_query_interval env q key = first_or (values q key) (ok (pos 0)) λ s.
    elim (lookup s interval_names) [ some interval ↦ ok interval | none ↦ env.parse_duration s ]

abbrev pub address_prefixes : List (Text × Text)
address_prefixes =
    (codes "Swap-", codes "swap-")
    ∷ (codes "Core-", codes "core-")
    ∷ (codes "AX-", codes "ax-")
    ∷ []

-- The loop of `AddressFromString`; the second text of a pair is the prefix in lower case.
unfoldable pub trim_prefixes : List (Text × Text) → Text → Text
trim_prefixes [] addr_str = addr_str
trim_prefixes ((prefix, lower) ∷ rest) addr_str =
    trim_prefixes rest (trim_prefix (trim_prefix addr_str prefix) lower)

-- A string that is no Bech32 address is read as a short ID; if that fails too, the error of the
-- second parser is returned, which hides the first one's.
unfoldable pub address_from_string : Env → Text → Result Error Ident
unfolding trim_prefixes
address_from_string env addr_str =
    let addr = trim_prefixes address_prefixes addr_str in
    elim (env.parse_bech32 addr) [
      | ok addr_bytes ↦ env.to_short_id addr_bytes
      | err e ↦ env.short_from_string addr
    ]

unfoldable pub get_query_address : Env → Values → Text → Result Error (Option Ident)
get_query_address env q key = optional (get_query_string q key []) (address_from_string env)
