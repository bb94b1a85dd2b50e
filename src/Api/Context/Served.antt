-- ===== src/Api/Context/Served.antt =====
-- What the server of api/context.go writes to its responses.
use mathlib.Core.List.{Memᴰ}
use axia_network_v2_magellan.Prelude.{ℕ, ◌<◌, ◌≡◌, refl, ap, ◌∙◌, List, [], ◌∷◌, Option, none, some}
use axia_network_v2_magellan.Prelude.Int.{ℤ}
use axia_network_v2_magellan.Prelude.Text.{Text, text_eq}
use axia_network_v2_magellan.Prelude.Result.{Result, ok, err}
use axia_network_v2_magellan.Utils.TtlMap.{get}
use axia_network_v2_magellan.Utils.Cache.{DelayCache, cache_get, found_or}
use axia_network_v2_magellan.Api.Context.{
  Cacheable, write_json, write_err, key_of, computed, after_get, after_run, write_cacheable, Reach,
}
use axia_network_v2_magellan.Api.Context.Backed.{Backed, more, get-Backed, reach-IsBacked}

body-inj : {a b : List ℕ} → write_json a ≡ write_json b → a ≡ b
body-inj e = cc

err_ne_json : {code : ℕ} {t : Text} {b : List ℕ} {B : Type 0} → write_err code t ≡ write_json b → B
err_ne_json e = cc

module _ {Object : Type 0} (chksum : Text → ℕ) (marshal : Object → Result Text (List ℕ))
    (network_id : ℕ) (failed : Text) (byte : (k : Text) → chksum k < 256) where
  -- In every state that requests, the worker and the expiry lead to, where the sums of the keys are
  -- bytes: a body that is written for a request is what a run of the function gave, for this request
  -- or for an earlier one with the same cache key.
  pub write_cacheable-Backed :
      {c : DelayCache} {asked : List (Cacheable Object)} (r : Cacheable Object) (now : ℤ)
      (body : List ℕ)
      → Reach chksum marshal network_id failed c asked
      → (write_cacheable chksum marshal network_id failed c r now).1 ≡ write_json body
      → Backed chksum marshal network_id failed byte (key_of network_id r) body (r ∷ asked)
  unfolding write_cacheable cache_get
  write_cacheable-Backed {c} {asked} r now body reach e =
      of_get (get chksum c.cache (key_of network_id r) now) refl e
    where
      of_run :
          (ran : Result Text (List ℕ))
          → computed marshal r ≡ ran
          → (after_run chksum marshal network_id failed c (key_of network_id r) r.ttl ran).1
            ≡ write_json body
          → Backed chksum marshal network_id failed byte (key_of network_id r) body (r ∷ asked)
      of_run (ok resp) e f = record {
        request = r;
        sent = Memᴰ.head refl;
        same_key = refl;
        bytes = e ∙ ap ok (body-inj f);
      }
      of_run (err e') e f = err_ne_json f

      of_get :
          (got : Option (List ℕ))
          → get chksum c.cache (key_of network_id r) now ≡ got
          → (after_get chksum marshal network_id failed c r (found_or got)).1 ≡ write_json body
          → Backed chksum marshal network_id failed byte (key_of network_id r) body (r ∷ asked)
      of_get none e f = of_run (computed marshal r) refl f
      of_get (some resp) e f = more chksum marshal network_id failed byte (r ∷ []) (
          get-Backed chksum marshal network_id failed byte c asked (key_of network_id r) body now
            (reach-IsBacked chksum marshal network_id failed byte reach) (e ∙ ap some (body-inj f)))
