-- ===== src/Prelude/Dict.antt =====
-- Go maps as association lists with one entry for a key. Iteration order is that of the list, so
-- a result that should not depend on Go's random order is stated by `lookup`.
use mathlib.Core.Path.{◌≡◌, refl, subst, ◌∙◌}
use mathlib.Core.Logic.{inl, inr}
use mathlib.Core.List.{List, [], ◌∷◌}
use mathlib.Core.Option.{Option, none, some}
use native.Mathlib.Omega.{arith}
use axia_network_v2_magellan.Prelude.Tests.{if◌then◌else◌, Bool-cases}
use axia_network_v2_magellan.Prelude.Eq.{Eq, ◌==◌}

module _ {ℓ κ} {K : Type ℓ} {V : Type κ} ⦃e : Eq K⦄ where
  -- m[k]
  unfoldable pub lookup : K → List (K × V) → Option V
  lookup k [] = none
  lookup k ((j, v) ∷ m) = if j == k then some v else lookup k m

  -- m[k] = v
  unfoldable pub insert : K → V → List (K × V) → List (K × V)
  insert new val [] = (new, val) ∷ []
  insert new val ((old, w) ∷ m) = if old == new then (new, val) ∷ m else (old, w) ∷ insert new val m

  -- delete(m, k)
  unfoldable pub delete : K → List (K × V) → List (K × V)
  delete k [] = []
  delete k ((j, w) ∷ m) = let rest = delete k m in if j == k then rest else (j, w) ∷ rest

  pub lookup-insert :
      (new asked : K) (val : V) (m : List (K × V))
      → lookup asked (insert new val m) ≡ (if new == asked then some val else lookup asked m)
  unfolding lookup insert
  lookup-insert new asked val [] = refl
  lookup-insert new asked val ((old, w) ∷ m) = ground (
    arith,
    e.beq_iff new asked,
    e.beq_iff old new,
    e.beq_iff old asked,
    lookup-insert new asked val m,
  )

  pub lookup-delete :
      (k j : K) (m : List (K × V)) → lookup j (delete k m) ≡ (if k == j then none else lookup j m)
  unfolding lookup delete
  lookup-delete k j [] = ground arith
  lookup-delete k j ((i, w) ∷ m) =
      ground (arith, e.beq_iff k j, e.beq_iff i k, e.beq_iff i j, lookup-delete k j m)

  -- Each key has one entry.
  abbrev pub IsMap : List (K × V) → Type κ
  IsMap [] = Unit
  IsMap ((k, v) ∷ m) = (lookup k m ≡ none) × IsMap m

  pub insert-IsMap : (k : K) (v : V) (m : List (K × V)) → IsMap m → IsMap (insert k v m)
  unfolding lookup insert
  insert-IsMap k v [] h = (refl, tt)
  insert-IsMap k v ((i, w) ∷ m) h = elim (Bool-cases (i == k)) [
    | inl same ↦
        rw (same, insert) (subst (λ j. lookup j m ≡ none) ((e.beq_iff i k).0 same) h.0, h.1)
    | inr other ↦
        rw (other, insert)
          (
            lookup-insert k i v m ∙ ground (arith, e.beq_iff k i, e.beq_iff i k, h.0),
            insert-IsMap k v m h.1,
          )
  ]

  pub delete-IsMap : (k : K) (m : List (K × V)) → IsMap m → IsMap (delete k m)
  unfolding lookup delete
  delete-IsMap k [] h = tt
  delete-IsMap k ((i, w) ∷ m) h = elim (Bool-cases (i == k)) [
    | inl same ↦ rw (same, delete) (delete-IsMap k m h.1)
    | inr other ↦
        rw (other, delete) (lookup-delete k i m ∙ ground (arith, h.0), delete-IsMap k m h.1)
  ]
