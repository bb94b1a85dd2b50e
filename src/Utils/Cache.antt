-- ===== src/Utils/Cache.antt =====
-- utils/cache.go and utils/delay_cache.go, with the channel of utils/worker.go: the cache that is
-- filled behind the requests by one worker.
use axia_network_v2_magellan.Prelude.{
  ℕ, List, [], ◌∷◌, ◌++◌, Option, none, some, length, if◌then◌else◌, ltb,
}
use axia_network_v2_magellan.Prelude.Int.{ℤ, pos}
use axia_network_v2_magellan.Prelude.Text.{Text, codes}
use axia_network_v2_magellan.Prelude.Result.{Result, ok, err}
use axia_network_v2_magellan.Strconv.{itoa, join}
use axia_network_v2_magellan.Utils.TtlMap.{LCache, new_ttl_map, get, put}

-- `KeyFromParts`
unfoldable pub key_from_parts : List Text → Text
key_from_parts parts = join (codes "|") parts

-- `CacheKey`
unfoldable pub cache_key : ℕ → List Text → Text
cache_key network_id parts = key_from_parts (itoa (pos network_id) ∷ parts)

abbrev pub worker_queue_size : ℕ
worker_queue_size = 10

pub record CacheJob : Type 0 where
  pub key : Text
  pub body : List ℕ
  pub ttl : ℤ

-- `DelayCache`, with the jobs in the worker's channel, and the one that the worker has received.
pub record DelayCache : Type 0 where
  pub cache : LCache
  pub jobs : List CacheJob
  pub taken : Option CacheJob

unfoldable pub new_delay_cache : DelayCache
new_delay_cache = record { cache = new_ttl_map; jobs = []; taken = none }

abbrev pub found_or : Option (List ℕ) → Result Text (List ℕ)
found_or none = err (codes "not found")
found_or (some v) = ok v

-- `TryEnque`: a job is sent if the channel has room, and dropped if not.
unfoldable pub try_enque : CacheJob → List CacheJob → List CacheJob
try_enque job jobs = if ltb (length jobs) worker_queue_size then jobs ++ (job ∷ []) else jobs

-- The worker receives the oldest job, when it has none in hand.
abbrev pub next_job : LCache → List CacheJob → Option CacheJob → DelayCache
next_job cache (job ∷ jobs) none = record { cache = cache; jobs = jobs; taken = some job }
next_job cache [] none = record { cache = cache; jobs = []; taken = none }
next_job cache jobs (some job) = record { cache = cache; jobs = jobs; taken = some job }

abbrev pub receive : DelayCache → DelayCache
receive c = next_job c.cache c.jobs c.taken

module _ (chksum : Text → ℕ) where
  -- `cacheContainer.Get` and `Set`
  unfoldable pub cache_get : LCache → Text → ℤ → Result Text (List ℕ)
  cache_get m key now = found_or (get chksum m key now)

  unfoldable pub cache_set : LCache → Text → List ℕ → ℤ → ℤ → LCache
  cache_set m key bytes ttl now = put chksum m key bytes ttl now

  abbrev pub finished : LCache → List CacheJob → Option CacheJob → ℤ → DelayCache
  finished cache jobs none now = record { cache = cache; jobs = jobs; taken = none }
  finished cache jobs (some job) now = record {
    cache = cache_set cache job.key job.body job.ttl now;
    jobs = jobs;
    taken = none;
  }

  -- `Processor` on the job in hand
  abbrev pub processor : DelayCache → ℤ → DelayCache
  processor c now = finished c.cache c.jobs c.taken now
