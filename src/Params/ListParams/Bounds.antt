-- ===== src/Params/ListParams/Bounds.antt =====
-- What a request that is accepted asks for at most.
use axia_network_v2_magellan.Prelude.{ℕ, Bool, false, ◌≡◌, arith}
use axia_network_v2_magellan.Prelude.Int.{pos, ◌≤ℤ◌}
use axia_network_v2_magellan.Prelude.Result.{ok}
use axia_network_v2_magellan.Params.Query.{Values, Env}
use axia_network_v2_magellan.Params.ListParams.{
  ListParams, pagination_max_limit, for_values_offset, clamp_limit,
}

pub record IsBounded (allow_offset : Bool) (p : ListParams) : Type 0 where
  pub limit_low : pos 0 ≤ℤ p.limit
  pub limit_high : p.limit ≤ℤ pos pagination_max_limit
  pub offset_low : pos 0 ≤ℤ p.offset
  pub offset_allowed : allow_offset ≡ false → p.offset ≡ pos 0

-- The parameters of a request that is accepted, whatever its values are, have a limit from 0 to the
-- maximum of a page and an offset of at least 0, which is 0 where offsets are not allowed.
pub for_values_offset-IsBounded :
    (env : Env) (version : ℕ) (q : Values) (allow_offset : Bool) (p : ListParams)
    → for_values_offset env version q allow_offset ≡ ok p
    → IsBounded allow_offset p
unfolding for_values_offset clamp_limit
for_values_offset-IsBounded env version q allow_offset p h = ground arith
