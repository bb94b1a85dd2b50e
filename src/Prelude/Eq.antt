-- ===== src/Prelude/Eq.antt =====
-- Decidable equality of keys as an interface: Go's `==` on the key types of the maps.
use Prim.Native.Nat.{ℕ}
use mathlib.Core.Path.{◌≡◌, refl}
use mathlib.Core.Logic.{◌↔◌}
use mathlib.Core.Bool.{Bool, true, false, ◌||◌}
use mathlib.Core.List.{List, [], ◌∷◌}
use axia_network_v2_magellan.Prelude.Tests.{nat_beq, nat_beq_iff}

pub record Eq {ℓ} (K : Type ℓ) : Type ℓ where
  pub beq : (x y : K) → Bool
  pub beq_iff : (x y : K) → (beq x y ≡ true) ↔ (x ≡ y)

infix 50 ◌==◌
abbrev pub ◌==◌ {ℓ} : {K : Type ℓ} ⦃e : Eq K⦄ → (x y : K) → Bool
◌==◌ ⦃e⦄ x y = e.beq x y

instance abbrev pub nat_eq : Eq ℕ
nat_eq = record { beq = nat_beq; beq_iff = nat_beq_iff }

module _ {ℓ} {A : Type ℓ} ⦃e : Eq A⦄ where
  pub beq_refl : (a : A) → (a == a) ≡ true
  beq_refl a = (e.beq_iff a a).1 refl

  -- Whether a value occurs in a list.
  unfoldable pub elem : A → List A → Bool
  elem a [] = false
  elem a (x ∷ xs) = x == a || elem a xs
