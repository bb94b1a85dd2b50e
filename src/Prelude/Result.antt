-- ===== src/Prelude/Result.antt =====
-- A Go pair `(value, err)`: the value of a call that returned a nil error, or its error.
use mathlib.Core.Path.{◌≡◌, refl}

pub data Result {ℓ} (E A : Type ℓ) : Type ℓ where
  ok : A → Result E A
  err : E → Result E A

infixl 5 ◌>>=◌ ◌>>◌
abbrev pub ◌>>=◌ {ℓ} : {E A B : Type ℓ} → Result E A → (A → Result E B) → Result E B
ok a >>= f = f a
err e >>= f = err e

abbrev pub ◌>>◌ {ℓ} : {E A B : Type ℓ} → Result E A → Result E B → Result E B
m >> k = m >>= λ _. k

-- Inversion of a successful bind.
pub >>=-eq-ok {ℓ} :
    {E A B : Type ℓ} (r : Result E A) (next : A → Result E B) {last : B}
    → (r >>= next) ≡ ok last
    → (first : A) × (r ≡ ok first) × (next first ≡ ok last)
>>=-eq-ok (ok first) next h = (first, refl, h)
>>=-eq-ok (err reason) next h = cc
