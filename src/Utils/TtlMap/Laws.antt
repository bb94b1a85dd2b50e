-- ===== src/Utils/TtlMap/Laws.antt =====
-- What a reader of the cache sees, whatever the hash of the keys.
use mathlib.Core.Path.{subst}
use axia_network_v2_magellan.Prelude.{
  Bool, false, ◌||◌, ◌++◌, map, ℕ, zero, suc, ◌<◌, ◌≤◌, ◌⊎◌, ltb, set, ◌&&◌, ◌≡◌, refl, ap, sym,
  ◌∙◌, List, [], ◌∷◌, Option, none, some, arith, if◌then◌else◌, nat_beq, Bool-cases, inl, inr,
  length, get_or, replicate, length-set, get_or-set_self, get_or-set_ne,
}
use axia_network_v2_magellan.Prelude.Text.{text_beq_iff}
use native.Mathlib.Decide.{ℕ_discrete}
use axia_network_v2_magellan.Prelude.Text.{Text, text_eq}
use axia_network_v2_magellan.Prelude.Int.{ℤ, ◌≤ℤ◌, ltb_ℤ, ◌+ℤ◌}
use axia_network_v2_magellan.Prelude.Eq.{◌==◌, elem}
use axia_network_v2_magellan.Prelude.Dict.{lookup, IsMap}
use axia_network_v2_magellan.Utils.TtlMap.{
  Item, Bucket, LCache, expired, put_item, get_item, put_bucket, get_bucket, put, get, new_ttl_map,
  collect, deleted, delete_collected, drop_key, look, pick, without,
}
use axia_network_v2_magellan.Utils.TtlMap.Bucket.{
  drop_key-IsMap, elem-collect, is_expired, live, lookup-drop_key, lookup-put_bucket,
  put_bucket-IsMap,
}

-- There are 256 buckets, and no bucket holds a key twice.
pub record IsValid (m : LCache) : Type 0 where
  pub buckets : length m.buckets ≡ 256
  pub maps : (i : ℕ) → IsMap (get_or m.buckets i [])

get_or-replicate : (n i : ℕ) → get_or {A = Bucket} (replicate n []) i [] ≡ []
get_or-replicate zero i = refl
get_or-replicate (suc n) zero = refl
get_or-replicate (suc n) (suc i) = get_or-replicate n i

pub new_ttl_map-IsValid : IsValid new_ttl_map
unfolding new_ttl_map
new_ttl_map-IsValid = record {
  buckets = refl;
  maps = λ i. subst IsMap (sym (get_or-replicate 256 i)) tt;
}

set-outside : (l : List Bucket) (i : ℕ) (b : Bucket) → length l ≤ i → set l i b ≡ l
set-outside [] i b h = refl
set-outside (x ∷ l) zero b h = absurd (omega (arith, h))
set-outside (x ∷ l) (suc i) b h = ap (λ r. x ∷ r) (set-outside l i b (omega (arith, h)))

get_or-outside : (l : List Bucket) (i : ℕ) → length l ≤ i → get_or l i [] ≡ []
get_or-outside [] i h = refl
get_or-outside (x ∷ l) zero h = absurd (omega (arith, h))
get_or-outside (x ∷ l) (suc i) h = get_or-outside l i (omega (arith, h))

drop_key-empty : (now : ℤ) (k : Text) → drop_key now k [] ≡ []
unfolding drop_key lookup
drop_key-empty now k = refl

-- A bucket after a key was dropped from the bucket `i`
bucket-drop_key :
    (l : List Bucket) (i n : ℕ) (k : Text) (now : ℤ)
    → get_or (set l i (drop_key now k (get_or l i []))) n []
      ≡ (if nat_beq i n then drop_key now k (get_or l n []) else get_or l n [])
bucket-drop_key l i n k now = elim (ℕ_discrete i n) [
  | no other ↦ get_or-set_ne l i n (drop_key now k (get_or l i [])) [] other ∙ ground arith
  | yes same ↦ rw (← same) (elim (within i (length l)) [
    | inl inside ↦ get_or-set_self l i (drop_key now k (get_or l i [])) [] inside ∙ ground arith
    | inr outside ↦
        ap (λ x. get_or x i []) (set-outside l i (drop_key now k (get_or l i [])) outside)
        ∙ get_or-outside l i outside
        ∙ sym (drop_key-empty now k)
        ∙ ap (drop_key now k) (sym (get_or-outside l i outside))
        ∙ ground arith
  ])
]
  where
    within : (a b : ℕ) → (a < b) ⊎ (b ≤ a)
    within a b = elim (Bool-cases (ltb a b)) [
      | inl e ↦ inl (ground (arith, e))
      | inr e ↦ inr (ground (arith, e))
    ]

deleted-IsValid :
    (m : LCache) (rest : List (ℕ × Text)) (now : ℤ) (o : Option (ℕ × Text))
    → IsValid m
    → IsValid (deleted m rest now o)
deleted-IsValid m rest now none v = v
deleted-IsValid m rest now (some (i, k)) v = record {
  buckets = length-set m.buckets i (drop_key now k (get_or m.buckets i [])) ∙ v.buckets;
  maps = λ n. rw (bucket-drop_key m.buckets i n k now) (elim (Bool-cases (nat_beq i n)) [
    | inl same ↦ rw same (drop_key-IsMap now k (get_or m.buckets n []) (v.maps n))
    | inr other ↦ rw other (v.maps n)
  ]);
}

pub delete_collected-IsValid :
    (n : ℕ) (now : ℤ) (m : LCache) → IsValid m → IsValid (delete_collected n now m)
unfolding delete_collected
delete_collected-IsValid n now m v =
    deleted-IsValid m (without n m.collected) now (pick n m.collected) v

pub look-IsValid : (i : ℕ) (now : ℤ) (m : LCache) → IsValid m → IsValid (look i now m)
unfolding look
look-IsValid i now m v = record { buckets = v.buckets; maps = v.maps }

-- Whether an element is the key `j` of the bucket `i`, and whether a list has it
abbrev pub is_picked : ℕ → Text → Option (ℕ × Text) → Bool
is_picked i j none = false
is_picked i j (some (i', k)) = nat_beq i' i && k == j

abbrev pub is_collected : ℕ → Text → List (ℕ × Text) → Bool
is_collected i j [] = false
is_collected i j (p ∷ l) = is_picked i j (some p) || is_collected i j l

is_collected-append :
    (i : ℕ) (j : Text) (l l' : List (ℕ × Text))
    → is_collected i j (l ++ l') ≡ (is_collected i j l || is_collected i j l')
is_collected-append i j [] l' = refl
is_collected-append i j (p ∷ l) l' = ground (arith, is_collected-append i j l l')

is_collected-map :
    (i : ℕ) (j : Text) (ks : List Text) → is_collected i j (map (λ k. (i, k)) ks) ≡ elem j ks
unfolding elem
is_collected-map i j [] = refl
is_collected-map i j (k ∷ ks) = ground (arith, is_collected-map i j ks)

-- The value that a `Put` leaves: the old one, if there is an entry, expired or not.
abbrev pub kept : Option Item → List ℕ → List ℕ
kept none v = v
kept (some it) v = it.value

module _ (chksum : Text → ℕ) (byte : (k : Text) → chksum k < 256) where
  bucket-put :
      (m : LCache) (k : Text) (v : List ℕ) (ttl now : ℤ) (n : ℕ)
      → IsValid m
      → get_or (put chksum m k v ttl now).buckets n [] ≡ (
          if nat_beq (chksum k) n
          then put_bucket (get_or m.buckets n []) k v ttl now
          else get_or m.buckets n [])
  unfolding put
  bucket-put m k v ttl now n h = elim (ℕ_discrete (chksum k) n) [
    | yes same ↦ rw (← same) (
        get_or-set_self m.buckets (chksum k)
          (put_bucket (get_or m.buckets (chksum k) []) k v ttl now) []
          (omega (arith, byte k, h.buckets))
        ∙ ground arith)
    | no other ↦
        get_or-set_ne m.buckets (chksum k) n
          (put_bucket (get_or m.buckets (chksum k) []) k v ttl now) [] other
        ∙ ground arith
  ]

  -- Where the sums of the keys are bytes, `Put` on a cache of 256 buckets with at most one entry for a
  -- key leaves such a cache.
  pub put-IsValid :
      (m : LCache) (k : Text) (v : List ℕ) (ttl now : ℤ)
      → IsValid m
      → IsValid (put chksum m k v ttl now)
  put-IsValid m k v ttl now h = record {
    buckets =
        unfold put in
        length-set m.buckets (chksum k) (put_bucket (get_or m.buckets (chksum k) []) k v ttl now)
        ∙ h.buckets;
    maps = λ i. rw (bucket-put m k v ttl now i h) (IsMap-if i);
  }
    where
      IsMap-if :
          (i : ℕ)
          → IsMap (
              if nat_beq (chksum k) i
              then put_bucket (get_or m.buckets i []) k v ttl now
              else get_or m.buckets i [])
      IsMap-if i = elim (Bool-cases (nat_beq (chksum k) i)) [
        | inl same ↦ rw same (put_bucket-IsMap (get_or m.buckets i []) k v ttl now (h.maps i))
        | inr other ↦ rw other (h.maps i)
      ]

  -- The entry of a key, expired or not.
  abbrev pub entry : LCache → Text → Option Item
  entry m k = lookup k (get_or m.buckets (chksum k) [])

  pub entry-new_ttl_map : (k : Text) → entry new_ttl_map k ≡ none
  unfolding new_ttl_map lookup
  entry-new_ttl_map k = ap (lookup k) (get_or-replicate 256 (chksum k))

  pub get-entry :
      (m : LCache) (k : Text) (now : ℤ) {v : List ℕ}
      → get chksum m k now ≡ some v
      → (it : Item) × (entry m k ≡ some it) × (it.value ≡ v)
  unfolding get get_bucket
  get-entry m k now {v} e = of_entry (entry m k) e
    where
      of_entry :
          (o : Option Item) → get_item now o ≡ some v → (it : Item) × (o ≡ some it) × (it.value ≡ v)
      of_entry none e = cc
      of_entry (some it) e = elim (Bool-cases (expired now it)) [
        | inl old ↦ ground arith
        | inr fresh ↦ (it, refl, ground arith)
      ]

  pub entry-put :
      (m : LCache) (k j : Text) (v : List ℕ) (ttl now : ℤ)
      → IsValid m
      → entry (put chksum m k v ttl now) j
        ≡ (if k == j then some (put_item (entry m k) v ttl now) else entry m j)
  entry-put m k j v ttl now h =
      ap (lookup j) (bucket-put m k v ttl now (chksum j) h)
      ∙ ground (
        arith,
        text_beq_iff k j,
        lookup-put_bucket (get_or m.buckets (chksum j) []) k j v ttl now,
      )

  -- A deletion leaves an entry as it is, or takes it if it has expired.
  abbrev lives : ℤ → Text → Option (ℕ × Text) → Option Item → Option Item
  lives now j none o = o
  lives now j (some (i, k)) o = if nat_beq i (chksum j) && k == j then live now o else o

  entry-deleted :
      (m : LCache) (rest : List (ℕ × Text)) (now : ℤ) (o : Option (ℕ × Text)) (j : Text)
      → entry (deleted m rest now o) j ≡ lives now j o (entry m j)
  entry-deleted m rest now none j = refl
  entry-deleted m rest now (some (i, k)) j =
      ap (lookup j) (bucket-drop_key m.buckets i (chksum j) k now)
      ∙ ground (arith, lookup-drop_key now k j (get_or m.buckets (chksum j) []))

  pub entry-delete_collected :
      (n : ℕ) (now : ℤ) (m : LCache) (j : Text)
      → entry (delete_collected n now m) j ≡ lives now j (pick n m.collected) (entry m j)
  unfolding delete_collected
  entry-delete_collected n now m j =
      entry-deleted m (without n m.collected) now (pick n m.collected) j

  pub lives-some :
      (now : ℤ) (j : Text) (p : Option (ℕ × Text)) (o : Option Item) (it : Item)
      → lives now j p o ≡ some it
      → o ≡ some it
  lives-some now j none o it e = e
  lives-some now j (some (i, k)) none it e = ground (arith, e)
  lives-some now j (some (i, k)) (some x) it e = ground (arith, e)

  get_item-lives :
      (now later : ℤ) (j : Text) (p : Option (ℕ × Text)) (o : Option Item)
      → now ≤ℤ later
      → get_item later (lives now j p o) ≡ get_item later o
  get_item-lives now later j none o h = refl
  get_item-lives now later j (some (i, k)) none h = ground arith
  get_item-lives now later j (some (i, k)) (some it) h = ground (arith, h)

  get_item-put_item :
      (o : Option Item) (v : List ℕ) (ttl now later : ℤ)
      → get_item later (some (put_item o v ttl now))
        ≡ (if ltb_ℤ (now +ℤ ttl) later then none else some (kept o v))
  get_item-put_item none v ttl now later = refl
  get_item-put_item (some it) v ttl now later = refl

  get-get_item : (m : LCache) (j : Text) (now : ℤ) → get chksum m j now ≡ get_item now (entry m j)
  unfolding get get_bucket
  get-get_item m j now = refl

  -- On a valid cache, and where the sums of the keys are bytes, a `Get` after a `Put`: another key is as
  -- before; the key itself is there up to `now + ttl`, with the value that it had, if the map still held
  -- an entry for it (expired or not), and the new value if not.
  pub get-put :
      (m : LCache) (k j : Text) (v : List ℕ) (ttl now later : ℤ)
      → IsValid m
      → get chksum (put chksum m k v ttl now) j later ≡ (
          if k == j
          then (if ltb_ℤ (now +ℤ ttl) later then none else some (kept (entry m k) v))
          else get chksum m j later)
  get-put m k j v ttl now later h =
      get-get_item (put chksum m k v ttl now) j later
      ∙ ap (get_item later) (entry-put m k j v ttl now h)
      ∙ ground (arith, get-get_item m j later, get_item-put_item (entry m k) v ttl now later)

  -- The expiry goroutines are not seen by a reader. On a valid cache the first pass over a key's bucket
  -- adds the key to those that are collected exactly if it has expired. The deletion of a collected key,
  -- whatever was put since it was collected, leaves every `Get` from its time on as it was; it takes the
  -- entry of this key if it has expired by then, and leaves all else.
  pub get-delete_collected :
      (m : LCache) (j : Text) (n : ℕ) (now later : ℤ)
      → IsValid m
      → now ≤ℤ later
      → (get chksum (delete_collected n now m) j later ≡ get chksum m j later)
        × (is_collected (chksum j) j (look (chksum j) now m).collected
            ≡ (is_collected (chksum j) j m.collected || is_expired now (entry m j)))
        × (entry (delete_collected n now m) j ≡ (
            if is_picked (chksum j) j (pick n m.collected) && is_expired now (entry m j)
            then none
            else entry m j))
  unfolding look
  get-delete_collected m j n now later v h = (
    get-get_item (delete_collected n now m) j later
        ∙ ap (get_item later) (entry-delete_collected n now m j)
        ∙ get_item-lives now later j (pick n m.collected) (entry m j) h
        ∙ sym (get-get_item m j later),
    is_collected-append (chksum j) j m.collected
          (map (λ k. (chksum j, k)) (collect now (get_or m.buckets (chksum j) [])))
        ∙ ap (λ b. is_collected (chksum j) j m.collected || b)
            (is_collected-map (chksum j) j (collect now (get_or m.buckets (chksum j) []))
              ∙ elem-collect now (get_or m.buckets (chksum j) []) j (v.maps (chksum j))),
    entry-delete_collected n now m j ∙ taken (pick n m.collected) (entry m j),
  )
    where
      taken :
          (p : Option (ℕ × Text)) (o : Option Item)
          → lives now j p o ≡ (if is_picked (chksum j) j p && is_expired now o then none else o)
      taken none o = refl
      taken (some (i, k)) none = ground arith
      taken (some (i, k)) (some it) = ground arith
