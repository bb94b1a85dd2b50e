-- ===== src/Api/Context.antt =====
-- api/context.go: `WriteCacheable`, and the runs of the requests, the worker and the expiry together.
pub mod Backed
pub mod Served
use axia_network_v2_magellan.Prelude.{ℕ, List, [], ◌∷◌, ◌++◌}
use axia_network_v2_magellan.Prelude.Int.{ℤ}
use axia_network_v2_magellan.Prelude.Text.{Text}
use axia_network_v2_magellan.Prelude.Result.{Result, ok, err, ◌>>=◌}
use axia_network_v2_magellan.Utils.TtlMap.{delete_collected, look}
use axia_network_v2_magellan.Utils.Cache.{
  CacheJob, DelayCache, cache_get, cache_key, new_delay_cache, processor, receive, try_enque,
}

-- `Cacheable`, with what its function returns if it is run now.
pub record Cacheable (Object : Type 0) : Type 0 where
  pub key : List Text
  pub outcome : Result Text Object
  pub ttl : ℤ

-- What is written to the response: a body with the status 200, or a status and the text of an error.
pub data Response : Type 0 where
  write_json : List ℕ → Response
  write_err : ℕ → Text → Response

abbrev pub key_of : {Object : Type 0} → ℕ → Cacheable Object → Text
key_of network_id r = cache_key network_id r.key

-- The bytes of a new run of the function
abbrev pub computed :
    {Object : Type 0} → (Object → Result Text (List ℕ)) → Cacheable Object → Result Text (List ℕ)
computed marshal r = r.outcome >>= marshal

-- `marshal` is `json.Marshal`.
module _ {Object : Type 0} (chksum : Text → ℕ) (marshal : Object → Result Text (List ℕ))
    (network_id : ℕ) (cacheable_fn_failed : Text) where
  -- After a miss
  abbrev pub after_run : DelayCache → Text → ℤ → Result Text (List ℕ) → DelayCache × Response
  after_run c key ttl (ok resp) = (
    record c { jobs = try_enque (record { key = key; body = resp; ttl = ttl }) c.jobs },
    write_json resp,
  )
  after_run c key ttl (err e) = (c, write_err 500 cacheable_fn_failed)

  abbrev pub after_get :
      DelayCache → Cacheable Object → Result Text (List ℕ) → DelayCache × Response
  after_get c r (ok resp) = (c, write_json resp)
  after_get c r (err e) = after_run c (key_of network_id r) r.ttl (computed marshal r)

  -- `WriteCacheable`
  unfoldable pub write_cacheable : DelayCache → Cacheable Object → ℤ → DelayCache × Response
  write_cacheable c r now = after_get c r (cache_get chksum c.cache (key_of network_id r) now)

  -- One step of the running server: a request, one of the worker, or one of the expiry, which looks at
  -- a bucket or deletes a key that it has collected.
  pub data Step (c : DelayCache) : DelayCache → Type 0 where
    request : (r : Cacheable Object) (now : ℤ) → Step c (write_cacheable c r now).0
    receives : Step c (receive c)
    sets : (now : ℤ) → Step c (processor chksum c now)
    looks : (i : ℕ) (now : ℤ) → Step c (record c { cache = look i now c.cache })
    deletes : (n : ℕ) (now : ℤ) → Step c (record c { cache = delete_collected n now c.cache })

  abbrev pub asked_in : {c d : DelayCache} → Step c d → List (Cacheable Object)
  asked_in (request r now) = r ∷ []
  asked_in receives = []
  asked_in (sets now) = []
  asked_in (looks i now) = []
  asked_in (deletes n now) = []

  -- The states that the server can be in, with the requests that it was sent, the latest first.
  pub data Reach : DelayCache → List (Cacheable Object) → Type 0 where
    start : Reach new_delay_cache []
    later :
        {c d : DelayCache} {asked : List (Cacheable Object)}
        → Reach c asked
        → (s : Step c d) → Reach d (asked_in s ++ asked)
