-- ===== src/Tests/Server.antt =====
-- The server of api/ on concrete requests.
use axia_network_v2_magellan.Prelude.{ℕ, List, [], ◌∷◌, ◌≡◌, refl, arith, none, some}
use axia_network_v2_magellan.Prelude.Int.{pos, ◌+ℤ◌}
use axia_network_v2_magellan.Prelude.Text.{Text, codes, text_eq, text_beq}
use axia_network_v2_magellan.Prelude.Result.{Result, ok}
use axia_network_v2_magellan.Prelude.Dict.{lookup, insert, IsMap}
use axia_network_v2_magellan.Params.Query.{Values}
use axia_network_v2_magellan.Utils.Cache.{
  DelayCache, cache_get, cache_set, try_enque, cache_key, key_from_parts, new_delay_cache,
  processor, receive,
}
use axia_network_v2_magellan.Strconv.{itoa, join}
use axia_network_v2_magellan.Utils.TtlMap.{get, get_bucket, put, put_bucket, new_ttl_map}
use axia_network_v2_magellan.Api.Context.{
  Cacheable, Reach, write_cacheable, write_json, key_of, request, receives, sets, start, later,
}
use axia_network_v2_magellan.Api.Context.Backed.{Backed}
use axia_network_v2_magellan.Api.Context.Served.{write_cacheable-Backed}
use axia_network_v2_magellan.Api.Values.{WebRequest, parse_get_json}
use axia_network_v2_magellan.Api.Values.Merged.{both, body_values, lookup-parse_get_json}

abbrev chksum : Text → ℕ
chksum k = 7

abbrev marshal : ℕ → Result Text (List ℕ)
marshal n = ok (n ∷ [])

abbrev failed : Text
failed = codes "failed to load resource"

abbrev first : Cacheable ℕ
first = record { key = codes "axc" ∷ codes "search" ∷ []; outcome = ok 5; ttl = pos 10 }

abbrev second : Cacheable ℕ
second = record { key = codes "axc" ∷ codes "search" ∷ []; outcome = ok 6; ttl = pos 10 }

abbrev asked_once : DelayCache
asked_once = (write_cacheable chksum marshal 1 failed new_delay_cache first (pos 0)).0

abbrev cached : DelayCache
cached = processor chksum (receive asked_once) (pos 1)

cached-Reach : Reach chksum marshal 1 failed cached (first ∷ [])
cached-Reach = later (later (later start (request first (pos 0))) receives) (sets (pos 1))

from_cache : (write_cacheable chksum marshal 1 failed cached second (pos 5)).1 ≡ write_json (5 ∷ [])
unfolding write_cacheable cache_get cache_set get get_bucket put put_bucket lookup insert try_enque
    new_delay_cache new_ttl_map cache_key key_from_parts join itoa text_beq ◌+ℤ◌
from_cache = refl

write_cacheable-Backed_example :
    Backed chksum marshal 1 failed
      (λ k. omega arith)
      (key_of 1 second)
      (5 ∷ [])
      (second ∷ first ∷ [])
write_cacheable-Backed_example =
    write_cacheable-Backed chksum marshal 1 failed (λ k. omega arith) second (pos 5) (5 ∷ [])
      cached-Reach from_cache

abbrev one_limit : Text → Result Text Values
one_limit s = ok ((codes "limit", s ∷ []) ∷ [])

abbrev posted : WebRequest
posted = record {
  query = (codes "limit", codes "3" ∷ []) ∷ [];
  body = some (record { bytes = codes "5"; failure = none });
}

posted-IsMap : IsMap posted.query
unfolding lookup
posted-IsMap = (refl, tt)

lookup-parse_get_json_example :
    lookup (codes "limit") (parse_get_json one_limit posted 100).0
    ≡ both
        (lookup (codes "limit") (body_values one_limit posted.body 100))
        (lookup (codes "limit") posted.query)
lookup-parse_get_json_example =
    lookup-parse_get_json one_limit posted 100 (codes "limit") posted-IsMap
