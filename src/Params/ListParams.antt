-- ===== src/Params/ListParams.antt =====
-- services/indexes/params/params.go: the parameters that every listing takes.
pub mod Bounds
pub mod Key
pub mod Reads
use axia_network_v2_magellan.Prelude.{
  ℕ, zero, suc, Bool, true, false, ◌&&◌, ◌||◌, not, List, [], ◌∷◌, ◌++◌, Option, none, some, ltb,
  leb, if◌then◌else◌,
}
use axia_network_v2_magellan.Prelude.Int.{ℤ, pos, negsuc, ltb_ℤ}
use axia_network_v2_magellan.Prelude.Text.{Text, codes}
use axia_network_v2_magellan.Prelude.Result.{Result, ok, err, ◌>>=◌, ◌>>◌}
use axia_network_v2_magellan.Strconv.{itoa, format_bool}
use axia_network_v2_magellan.Params.Query.{
  Error, offset_deprecated, Values, Ident, Time, Env, is_zero, round_second, get_query_int,
  get_query_bool, get_query_string, get_query_time, get_query_id,
}

abbrev pub pagination_max_limit : ℕ
pagination_max_limit = 5000

pub record ListParams : Type 0 where
  pub values : Values
  pub id : Option Ident
  pub query : Text
  pub limit : ℤ
  pub offset : ℤ
  pub disable_counting : Bool
  pub start_time_provided : Bool
  pub end_time_provided : Bool
  pub start_time : Time
  pub end_time : Time

-- `if p.Limit < 0 {0}; if p.Limit > PaginationMaxLimit {PaginationMaxLimit}`
unfoldable pub clamp_limit : ℤ → ℤ
clamp_limit l =
    let l' = if ltb_ℤ l (pos 0) then pos 0 else l in
    if ltb_ℤ (pos pagination_max_limit) l' then pos pagination_max_limit else l'

abbrev pub clamp_offset : ℤ → ℤ
clamp_offset o = if ltb_ℤ o (pos 0) then pos 0 else o

abbrev pub check : Bool → Error → Result Error (Unit {0})
check true e = ok tt
check false e = err e

unfoldable pub for_values_offset : Env → ℕ → Values → Bool → Result Error ListParams
for_values_offset env version q allow_offset = do
  limit ← get_query_int q (codes "limit") (pos pagination_max_limit)
  offset ← get_query_int q (codes "offset") (pos 0)
  check (allow_offset || not (ltb_ℤ (pos 0) (clamp_offset offset))) offset_deprecated
  id ← get_query_id env q (codes "id")
  (start_provided, start) ← get_query_time env q (codes "startTime")
  (end_provided, end) ← get_query_time env q (codes "endTime")
  disable ← get_query_bool q (codes "disableCount") false
  ok (record {
    values = q;
    id = id;
    query = get_query_string q (codes "query") [];
    limit = clamp_limit limit;
    offset = clamp_offset offset;
    disable_counting = if leb 2 version then true else disable;
    start_time_provided = start_provided;
    end_time_provided = end_provided;
    start_time = round_second start;
    end_time = round_second (if is_zero end then env.now else end);
  })

-- `ListParams.ForValues`
unfoldable pub for_values : Env → ℕ → Values → Result Error ListParams
for_values env version q = for_values_offset env version q false

-- `ListParams.ForValuesAllowOffset`
unfoldable pub for_values_allow_offset : Env → ℕ → Values → Result Error ListParams
for_values_allow_offset env version q = for_values_offset env version q true

-- `CacheKey(name, val)`, with `val` as `%v` prints it
abbrev pub key_value : Text → Text → Text
key_value name val = name ++ b'=' ∷ val

abbrev pub id_key : Env → Option Ident → List Text
id_key env none = []
id_key env (some id) = key_value (codes "id") (env.id_string id) ∷ []

unfoldable pub cache_key : Env → ListParams → List Text
cache_key env p =
    id_key env p.id
    ++ key_value (codes "limit") (itoa p.limit)
      ∷ key_value (codes "offset") (itoa p.offset)
      ∷ key_value (codes "startTime") (itoa p.start_time.sec)
      ∷ key_value (codes "endTime") (itoa p.end_time.sec)
      ∷ key_value (codes "query") p.query
      ∷ key_value (codes "disableCount") (format_bool p.disable_counting)
      ∷ []
