-- ===== src/Utils/TtlMap.antt =====
-- utils/ttlmapcache.go: a cache of byte strings with a time to live, in 256 buckets that are picked
-- by the first byte of the key's SHA-256 sum, which is a parameter here. A time is a number of
-- nanoseconds; each call of `time.Now()` is an argument.
pub mod Bucket
pub mod Laws
use axia_network_v2_magellan.Prelude.{
  ℕ, zero, suc, ◌+◌, Bool, true, false, List, [], ◌∷◌, ◌++◌, Option, none, some, length, set,
  get_or, replicate, if◌then◌else◌, map,
}
use axia_network_v2_magellan.Prelude.Text.{Text, text_eq}
use axia_network_v2_magellan.Prelude.Int.{ℤ, ltb_ℤ, ◌+ℤ◌}
use axia_network_v2_magellan.Prelude.Dict.{lookup, insert, delete}

pub record Item : Type 0 where
  pub value : List ℕ
  pub expire : ℤ
  pub last : ℤ

abbrev pub Bucket : Type 0
Bucket = List (Text × Item)

-- The buckets, and what the expiry goroutines have collected: the number of a bucket and a key.
pub record LCache : Type 0 where
  pub buckets : List Bucket
  pub collected : List (ℕ × Text)

-- `now.After(t)`
abbrev pub after : ℤ → ℤ → Bool
after now t = ltb_ℤ t now

abbrev pub expired : ℤ → Item → Bool
expired now it = after now it.expire

unfoldable pub new_ttl_map : LCache
new_ttl_map = record { buckets = replicate 256 []; collected = [] }

-- `Put` on the bucket: an entry that is there keeps its value, and gets a new `last` and `expire`.
abbrev pub put_item : Option Item → List ℕ → ℤ → ℤ → Item
put_item (some it) v ttl now = record { value = it.value; expire = now +ℤ ttl; last = now }
put_item none v ttl now = record { value = v; expire = now +ℤ ttl; last = now }

unfoldable pub put_bucket : Bucket → Text → List ℕ → ℤ → ℤ → Bucket
put_bucket bm k v ttl now = insert k (put_item (lookup k bm) v ttl now) bm

abbrev pub get_item : ℤ → Option Item → Option (List ℕ)
get_item now none = none
get_item now (some it) = if expired now it then none else some it.value

unfoldable pub get_bucket : Bucket → Text → ℤ → Option (List ℕ)
get_bucket bm k now = get_item now (lookup k bm)

-- The first pass of `expire` over a bucket: the keys that have expired.
unfoldable pub collect : ℤ → Bucket → List Text
collect now [] = []
collect now ((k, it) ∷ bm) =
    let rest = collect now bm in if after now it.expire then k ∷ rest else rest

-- It is one step, under the bucket's read lock, with the `now` that was read before. (An empty bucket is
-- skipped by the code, and is unchanged here.)
unfoldable pub look : ℕ → ℤ → LCache → LCache
look i now m = record m {
  collected = m.collected ++ map (λ k. (i, k)) (collect now (get_or m.buckets i []));
}

-- The second pass deletes a collected key, if the entry is still there and expired by then.
unfoldable pub drop_key : ℤ → Text → Bucket → Bucket
drop_key now k bm = elim (lookup k bm) [
  | none ↦ bm
  | some it ↦ if expired now it then delete k bm else bm
]

abbrev pub pick : ℕ → List (ℕ × Text) → Option (ℕ × Text)
pick n [] = none
pick zero (x ∷ l) = some x
pick (suc n) (x ∷ l) = pick n l

abbrev pub without : ℕ → List (ℕ × Text) → List (ℕ × Text)
without n [] = []
without zero (x ∷ l) = l
without (suc n) (x ∷ l) = x ∷ without n l

abbrev pub deleted : LCache → List (ℕ × Text) → ℤ → Option (ℕ × Text) → LCache
deleted m rest now none = m
deleted m rest now (some (i, k)) = record {
  buckets = set m.buckets i (drop_key now k (get_or m.buckets i []));
  collected = rest;
}

-- Each key is a step of its own, under the bucket's lock, at the time `now`: other goroutines may `Put`
-- and delete between the passes and between the keys. Three buckets are worked on at once, so the next
-- key may be any that is collected.
unfoldable pub delete_collected : ℕ → ℤ → LCache → LCache
delete_collected n now m = deleted m (without n m.collected) now (pick n m.collected)

-- `chksum k` is the first byte of the SHA-256 sum of `k`.
module _ (chksum : Text → ℕ) where
  unfoldable pub put : LCache → Text → List ℕ → ℤ → ℤ → LCache
  unfolding put_bucket
  put m k v ttl now = record m {
    buckets = set m.buckets (chksum k) (put_bucket (get_or m.buckets (chksum k) []) k v ttl now);
  }

  unfoldable pub get : LCache → Text → ℤ → Option (List ℕ)
  unfolding get_bucket
  get m k now = get_bucket (get_or m.buckets (chksum k) []) k now
