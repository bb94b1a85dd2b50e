-- ===== src/Params/ListParams/Reads.antt =====
-- Which keys of a query the common parameters read.
use axia_network_v2_magellan.Prelude.{ℕ, Bool, false, List, [], ◌≡◌, refl, arith, if◌then◌else◌}
use axia_network_v2_magellan.Prelude.Int.{ℤ, pos}
use axia_network_v2_magellan.Prelude.Dict.{insert, lookup-insert}
use axia_network_v2_magellan.Prelude.Eq.{◌==◌}
use axia_network_v2_magellan.Prelude.Text.{Text, codes, text_eq}
use axia_network_v2_magellan.Prelude.Result.{ok, ◌>>=◌}
use axia_network_v2_magellan.Params.Query.{
  Values, Env, values, get_query_int, get_query_string, get_query_time, get_query_bool,
  get_query_id,
}
use axia_network_v2_magellan.Params.ListParams.{for_values_offset, pagination_max_limit}

pub values-insert :
    (q : Values) (k j : Text) (vs : List Text)
    → values (insert k vs q) j ≡ (if k == j then vs else values q j)
unfolding values
values-insert q k j vs = ground (arith, lookup-insert k j vs q)

-- Two queries agree on the keys of the common parameters.
pub record Agree (q q' : Values) : Type 0 where
  pub limit : values q' (codes "limit") ≡ values q (codes "limit")
  pub offset : values q' (codes "offset") ≡ values q (codes "offset")
  pub id : values q' (codes "id") ≡ values q (codes "id")
  pub start_time : values q' (codes "startTime") ≡ values q (codes "startTime")
  pub end_time : values q' (codes "endTime") ≡ values q (codes "endTime")
  pub disable_count : values q' (codes "disableCount") ≡ values q (codes "disableCount")
  pub query : values q' (codes "query") ≡ values q (codes "query")

module _ (q q' : Values) (k : Text) (e : values q' k ≡ values q k) where
  int-congr : (d : ℤ) → get_query_int q' k d ≡ get_query_int q k d
  unfolding get_query_int
  int-congr d = rw e refl

  bool-congr : (d : Bool) → get_query_bool q' k d ≡ get_query_bool q k d
  unfolding get_query_bool
  bool-congr d = rw e refl

  string-congr : (d : Text) → get_query_string q' k d ≡ get_query_string q k d
  unfolding get_query_string
  string-congr d = rw e refl

  time-congr : (env : Env) → get_query_time env q' k ≡ get_query_time env q k
  unfolding get_query_time
  time-congr env = rw e refl

  id-congr : (env : Env) → get_query_id env q' k ≡ get_query_id env q k
  unfolding get_query_id
  id-congr env = rw (string-congr []) refl

-- Two queries that agree on the keys limit, offset, id, startTime, endTime, disableCount and query are
-- parsed alike, but for the copy of the query itself.
pub for_values_offset-Agree :
    (env : Env) (v : ℕ) (q q' : Values) (allow_offset : Bool)
    → Agree q q'
    → for_values_offset env v q' allow_offset
      ≡ (for_values_offset env v q allow_offset >>= λ p. ok (record p { values = q' }))
unfolding for_values_offset
for_values_offset-Agree env v q q' allow_offset h = ground (
  arith,
  int-congr q q' (codes "limit") h.limit (pos pagination_max_limit),
  int-congr q q' (codes "offset") h.offset (pos 0),
  id-congr q q' (codes "id") h.id env,
  time-congr q q' (codes "startTime") h.start_time env,
  time-congr q q' (codes "endTime") h.end_time env,
  bool-congr q q' (codes "disableCount") h.disable_count false,
  string-congr q q' (codes "query") h.query [],
)
