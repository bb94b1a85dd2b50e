-- ===== src/Utils/IndexedList.antt =====
-- utils/indexedlist.go: a bounded list of keys with a map for membership, used to skip the
-- transaction-pool rows that were processed lately. The mutex makes each method one step.
pub mod Valid
pub mod Refines
pub mod Pushed
use axia_network_v2_magellan.Prelude.{
  ℕ, zero, suc, Bool, true, false, List, [], ◌∷◌, Option, none, some, ltb, leb, is_some, length,
  if◌then◌else◌,
}
use axia_network_v2_magellan.Prelude.Int.{ℤ, pos, negsuc}
use axia_network_v2_magellan.Prelude.Eq.{Eq}
use axia_network_v2_magellan.Prelude.Dict.{lookup, insert, delete}

pub record IndexedList {ℓ} (K V : Type ℓ) : Type ℓ where
  pub entry_map : List (K × V)
  pub entry_list : List K
  pub max_size : ℕ

-- `if maxSize <= 1 { maxSize = 1 }`
abbrev pub clamp_size : ℤ → ℕ
clamp_size (pos n) = if leb n 1 then 1 else n
clamp_size (negsuc n) = 1

unfoldable pub new_indexed_list {ℓ} : {K V : Type ℓ} → ℤ → IndexedList K V
new_indexed_list max_size = record {
  entry_map = [];
  entry_list = [];
  max_size = clamp_size max_size;
}

module _ {ℓ} {A : Type ℓ} where
  -- `entryList.Back()`
  unfoldable pub back : List A → Option A
  back [] = none
  back (x ∷ []) = some x
  back (x ∷ y ∷ xs) = back (y ∷ xs)

  -- `entryList.Remove(entryList.Back())`
  unfoldable pub remove_back : List A → List A
  remove_back [] = []
  remove_back (x ∷ []) = []
  remove_back (x ∷ y ∷ xs) = x ∷ remove_back (y ∷ xs)

module _ {ℓ} {K V : Type ℓ} ⦃e : Eq K⦄ where
  unfoldable pub exists : IndexedList K V → K → Bool
  exists c key = is_some (lookup key c.entry_map)

  -- One round of the loop of `PushFront`.
  unfoldable pub evict : IndexedList K V → IndexedList K V
  unfolding back remove_back
  evict c = elim (back c.entry_list) [
    | none ↦ c
    | some k ↦ record c { entry_list = remove_back c.entry_list; entry_map = delete k c.entry_map }
  ]

  -- `for c.entryList.Len() > c.MaxSize`; each round shortens the list, so the list's own length is
  -- enough fuel.
  unfoldable pub evict_loop : ℕ → IndexedList K V → IndexedList K V
  evict_loop zero c = c
  evict_loop (suc fuel) c = elim (ltb c.max_size (length c.entry_list)) [
    | true ↦ evict_loop fuel (evict c)
    | false ↦ c
  ]

  unfoldable pub push_front : K → V → IndexedList K V → IndexedList K V
  unfolding exists
  push_front key val c =
      if exists c key
      then c
      else (let c' = record c {
        entry_list = key ∷ c.entry_list;
        entry_map = insert key val c.entry_map;
      } in
          evict_loop (length c'.entry_list) c')
