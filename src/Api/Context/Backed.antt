-- ===== src/Api/Context/Backed.antt =====
-- The invariant of the server that api/context.go and its cache make.
use mathlib.Core.Path.{subst}
use mathlib.Core.List.{Memᴰ}
use mathlib.Core.List.Memᴰ
use axia_network_v2_magellan.Prelude.{
  ℕ, ◌<◌, ◌≡◌, refl, sym, ap, ◌∙◌, List, [], ◌∷◌, ◌++◌, Option, none, some, length, if◌then◌else◌,
  ltb, Bool, true, false, inl, inr, ◌⊎◌,
}
use axia_network_v2_magellan.Prelude.Int.{ℤ}
use axia_network_v2_magellan.Prelude.Text.{Text, text_eq, text_beq_iff}
use axia_network_v2_magellan.Prelude.Eq.{◌==◌}
use axia_network_v2_magellan.Prelude.Result.{Result, ok, err}
use axia_network_v2_magellan.Utils.TtlMap.{
  LCache, Item, delete_collected, look, pick, put_item, get,
}
use axia_network_v2_magellan.Utils.TtlMap.Laws
use axia_network_v2_magellan.Utils.Cache.{
  CacheJob, DelayCache, cache_get, cache_set, finished, next_job, new_delay_cache, try_enque,
  worker_queue_size,
}
use axia_network_v2_magellan.Api.Context
use axia_network_v2_magellan.Api.Context.{
  Cacheable, Response, write_json, write_err, key_of, computed, after_get, after_run,
  write_cacheable, Reach, Step, asked_in, request, receives, sets, looks, deletes, start, later,
}

module _ {Object : Type 0} (chksum : Text → ℕ) (marshal : Object → Result Text (List ℕ))
    (network_id : ℕ) (failed : Text) (byte : (k : Text) → chksum k < 256) where
  -- A request with the key `k` was sent, and the run of its function gave the bytes `v`.
  pub record Backed (k : Text) (v : List ℕ) (asked : List (Cacheable Object)) : Type 0 where
    pub request : Cacheable Object
    pub sent : Memᴰ request asked
    pub same_key : key_of network_id request ≡ k
    pub bytes : computed marshal request ≡ ok v

  pub more :
      {k : Text} {v : List ℕ} {asked : List (Cacheable Object)} (new : List (Cacheable Object))
      → Backed k v asked
      → Backed k v (new ++ asked)
  more new b = record {
    request = b.request;
    sent = Memᴰ.append_right new b.sent;
    same_key = b.same_key;
    bytes = b.bytes;
  }

  pub record IsBacked (c : DelayCache) (asked : List (Cacheable Object)) : Type 0 where
    pub cache : Laws.IsValid c.cache
    pub entries :
        (k : Text) (it : Item)
        → Laws.entry chksum byte c.cache k ≡ some it
        → Backed k it.value asked
    pub queued : (job : CacheJob) → Memᴰ job c.jobs → Backed job.key job.body asked
    pub in_hand : (job : CacheJob) → c.taken ≡ some job → Backed job.key job.body asked

  pub get-Backed :
      (c : DelayCache) (asked : List (Cacheable Object)) (k : Text) (v : List ℕ) (now : ℤ)
      → IsBacked c asked
      → get chksum c.cache k now ≡ some v
      → Backed k v asked
  get-Backed c asked k v now h e =
      let (it, at_k, same) = Laws.get-entry chksum byte c.cache k now e in
      subst (λ b. Backed k b asked) same (h.entries k it at_k)

  some-inj : {A : Type 0} {a b : A} → some a ≡ some b → a ≡ b
  some-inj e = cc

  none_ne_some : {A B : Type 0} {a : A} → none ≡ some a → B
  none_ne_some e = cc

  start-IsBacked : IsBacked new_delay_cache []
  unfolding new_delay_cache
  start-IsBacked = record {
    cache = Laws.new_ttl_map-IsValid;
    entries = λ k it e. none_ne_some (sym (Laws.entry-new_ttl_map chksum byte k) ∙ e);
    queued = λ job m. elim m [ ];
    in_hand = λ job e. none_ne_some e;
  }

  mem_sent :
      (room : Bool) (job j : CacheJob) (jobs : List CacheJob)
      → Memᴰ j (if room then jobs ++ (job ∷ []) else jobs)
      → (j ≡ job) ⊎ Memᴰ j jobs
  mem_sent true job j jobs m = elim (Memᴰ.append_cases jobs m) [
    | inl old ↦ inr old
    | inr new ↦ inl (Memᴰ.eq_of_singleton new)
  ]
  mem_sent false job j jobs m = inr m

  mem-try_enque :
      (job j : CacheJob) (jobs : List CacheJob)
      → Memᴰ j (try_enque job jobs)
      → (j ≡ job) ⊎ Memᴰ j jobs
  unfolding try_enque
  mem-try_enque job j jobs m = mem_sent (ltb (length jobs) worker_queue_size) job j jobs m

  request-IsBacked :
      (c : DelayCache) (asked : List (Cacheable Object)) (r : Cacheable Object) (now : ℤ)
      → IsBacked c asked
      → IsBacked (Context.write_cacheable chksum marshal network_id failed c r now).0 (r ∷ asked)
  unfolding write_cacheable
  request-IsBacked c asked r now h =
      after_get-IsBacked (cache_get chksum c.cache (key_of network_id r) now)
    where
      kept : IsBacked c (r ∷ asked)
      kept = record {
        cache = h.cache;
        entries = λ k it e. more (r ∷ []) (h.entries k it e);
        queued = λ job m. more (r ∷ []) (h.queued job m);
        in_hand = λ job e. more (r ∷ []) (h.in_hand job e);
      }

      sent-IsBacked :
          (resp : List ℕ)
          → computed marshal r ≡ ok resp
          → IsBacked
              (record c {
                jobs =
                    try_enque
                      (record { key = key_of network_id r; body = resp; ttl = r.ttl })
                      c.jobs;
              })
              (r ∷ asked)
      sent-IsBacked resp e = record {
        cache = h.cache;
        entries = kept.entries;
        in_hand = kept.in_hand;
        queued = λ job m.
            elim (mem-try_enque (record { key = key_of network_id r; body = resp; ttl = r.ttl }) job
              c.jobs m) [
                | inl new ↦ record {
                  request = r;
                  sent = Memᴰ.head refl;
                  same_key = sym (ap (λ (x : CacheJob). x.key) new);
                  bytes = e ∙ sym (ap (λ (x : CacheJob). ok x.body) new);
                }
                | inr old ↦ kept.queued job old
              ];
      }

      after_get-IsBacked :
          (got : Result Text (List ℕ))
          → IsBacked (after_get chksum marshal network_id failed c r got).0 (r ∷ asked)
      after_get-IsBacked (ok resp) = kept
      after_get-IsBacked (err e) = after_run-IsBacked (computed marshal r) refl
        where
          after_run-IsBacked :
              (ran : Result Text (List ℕ))
              → computed marshal r ≡ ran
              → IsBacked
                  (after_run chksum marshal network_id failed c (key_of network_id r) r.ttl ran).0
                  (r ∷ asked)
          after_run-IsBacked (ok resp) e = sent-IsBacked resp e
          after_run-IsBacked (err e') e = kept

  receive-IsBacked :
      (cache : LCache) (jobs : List CacheJob) (taken : Option CacheJob)
      (asked : List (Cacheable Object))
      → IsBacked (record { cache = cache; jobs = jobs; taken = taken }) asked
      → IsBacked (next_job cache jobs taken) asked
  receive-IsBacked cache (job ∷ jobs) none asked h = record {
    cache = h.cache;
    entries = h.entries;
    queued = λ j m. h.queued j (Memᴰ.tail m);
    in_hand = λ j e. h.queued j (Memᴰ.head (some-inj (sym e)));
  }
  receive-IsBacked cache [] none asked h = h
  receive-IsBacked cache [] (some job) asked h = h
  receive-IsBacked cache (x ∷ jobs) (some job) asked h = h

  finished-IsBacked :
      (cache : LCache) (jobs : List CacheJob) (taken : Option CacheJob) (now : ℤ)
      (asked : List (Cacheable Object))
      → IsBacked (record { cache = cache; jobs = jobs; taken = taken }) asked
      → IsBacked (finished chksum cache jobs taken now) asked
  unfolding cache_set
  finished-IsBacked cache jobs none now asked h = h
  finished-IsBacked cache jobs (some job) now asked h = record {
    cache = Laws.put-IsValid chksum byte cache job.key job.body job.ttl now h.cache;
    entries = λ k it e.
        put-Backed k it (job.key == k) refl (Laws.entry chksum byte cache job.key) refl
          (sym (Laws.entry-put chksum byte cache job.key k job.body job.ttl now h.cache) ∙ e);
    queued = h.queued;
    in_hand = λ j e. none_ne_some e;
  }
    where
      put-Backed :
          (k : Text) (it : Item) (same : Bool)
          → (job.key == k) ≡ same
          → (old : Option Item) → Laws.entry chksum byte cache job.key ≡ old
          → (if same
              then some (put_item old job.body job.ttl now)
              else Laws.entry chksum byte cache k)
            ≡ some it
          → Backed k it.value asked
      put-Backed k it true same none e f =
          subst (λ b. Backed k b asked) (ap (λ (x : Item). x.value) (some-inj f))
            (subst (λ j. Backed j job.body asked) ((text_beq_iff job.key k).0 same)
              (h.in_hand job refl))
      put-Backed k it true same (some old) e f =
          subst (λ b. Backed k b asked) (ap (λ (x : Item). x.value) (some-inj f))
            (subst (λ j. Backed j old.value asked) ((text_beq_iff job.key k).0 same)
              (h.entries job.key old e))
      put-Backed k it false other old e f = h.entries k it f

  looks-IsBacked :
      (c : DelayCache) (asked : List (Cacheable Object)) (i : ℕ) (now : ℤ)
      → IsBacked c asked
      → IsBacked (record c { cache = look i now c.cache }) asked
  unfolding look
  looks-IsBacked c asked i now h = record {
    cache = record { buckets = h.cache.buckets; maps = h.cache.maps };
    entries = h.entries;
    queued = h.queued;
    in_hand = h.in_hand;
  }

  deletes-IsBacked :
      (c : DelayCache) (asked : List (Cacheable Object)) (n : ℕ) (now : ℤ)
      → IsBacked c asked
      → IsBacked (record c { cache = delete_collected n now c.cache }) asked
  deletes-IsBacked c asked n now h = record {
    cache = Laws.delete_collected-IsValid n now c.cache h.cache;
    entries = λ k it e. h.entries k it (
        Laws.lives-some chksum byte now k (pick n c.cache.collected)
          (Laws.entry chksum byte c.cache k) it
          (sym (Laws.entry-delete_collected chksum byte n now c.cache k) ∙ e));
    queued = h.queued;
    in_hand = h.in_hand;
  }

  step-IsBacked :
      {c d : DelayCache} (asked : List (Cacheable Object))
      (s : Step chksum marshal network_id failed c d)
      → IsBacked c asked
      → IsBacked d (asked_in chksum marshal network_id failed s ++ asked)
  step-IsBacked {c} asked (request r now) h = request-IsBacked c asked r now h
  step-IsBacked {c} asked receives h = receive-IsBacked c.cache c.jobs c.taken asked h
  step-IsBacked {c} asked (sets now) h = finished-IsBacked c.cache c.jobs c.taken now asked h
  step-IsBacked {c} asked (looks i now) h = looks-IsBacked c asked i now h
  step-IsBacked {c} asked (deletes n now) h = deletes-IsBacked c asked n now h

  pub reach-IsBacked :
      {c : DelayCache} {asked : List (Cacheable Object)}
      → Reach chksum marshal network_id failed c asked
      → IsBacked c asked
  reach-IsBacked start = start-IsBacked
  reach-IsBacked (later {asked = asked} r s) = step-IsBacked asked s (reach-IsBacked r)
