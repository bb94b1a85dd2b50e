-- ===== src/Db/Exec.antt =====
-- db/dbmodel.go: the statements that a session is given, and code that runs them. What an earlier
-- statement wrote stays when a later one fails (the caller's transaction, if any, rolls it back).
use axia_network_v2_magellan.Prelude.{ℕ, Bool, List, [], ◌∷◌, Option, ◌≡◌, refl, ap}
use axia_network_v2_magellan.Prelude.Text.{Text}
use axia_network_v2_magellan.Prelude.Result.{Result, ok, err}
use axia_network_v2_magellan.Params.Query.{Time}

pub data Value : Type 0 where
  text : Text → Value
  num : ℕ → Value
  bytes : Option (List ℕ) → Value
  flag : Bool → Value
  time : Time → Value
  -- text that the code splices into a statement as it is
  raw : Text → Value

-- One conjunct of a where clause.
pub data Cond : Type 0 where
  equals : Text → Value → Cond
  differs : Text → Value → Cond

pub data Stmt : Type 0 where
  insert_into : Text → List (Text × Value) → Stmt
  update : Text → List (Text × Value) → List Cond → Stmt

-- The session of a connection, on the states `D` of the world: a statement returns the text of its
-- error, and `now` reads the clock.
pub record Session (D : Type 0) : Type 0 where
  pub exec : Stmt → D → Option Text × D
  pub now : D → Time

abbrev pub Exec : Type 0 → Type 0 → Type 0
Exec D A = D → Result Text A × D

module _ {D A : Type 0} where
  unfoldable pub pure : A → Exec D A
  pure a d = (ok a, d)

  unfoldable pub lift : Result Text A → Exec D A
  lift r d = (r, d)

  unfoldable pub gets : (D → A) → Exec D A
  gets f d = (ok (f d), d)

module _ {D A B : Type 0} where
  abbrev pub continue : Result Text A → (A → Exec D B) → Exec D B
  continue (ok a) f d = f a d
  continue (err e) f d = (err e, d)

  infixl 10 ◌>>=◌ ◌>>◌
  unfoldable pub ◌>>=◌ : Exec D A → (A → Exec D B) → Exec D B
  ◌>>=◌ m f d = let (r, d') = m d in continue r f d'

  abbrev pub ◌>>◌ : Exec D A → Exec D B → Exec D B
  m >> n = m >>= λ _. n

  continue-ok :
      (r : Result Text A) (d' : D) (f : A → Exec D B) {b : B} {d'' : D}
      → continue r f d' ≡ (ok b, d'')
      → (a : A) × (r ≡ ok a) × (f a d' ≡ (ok b, d''))
  continue-ok (ok a) d' f h = (a, refl, h)
  continue-ok (err e) d' f h = cc

  -- What succeeds did so step by step.
  pub bind-ok :
      (m : Exec D A) (f : A → Exec D B) (d : D) {b : B} {d'' : D}
      → (m >>= f) d ≡ (ok b, d'')
      → (a : A) × (d' : D) × (m d ≡ (ok a, d')) × (f a d' ≡ (ok b, d''))
  unfolding ◌>>=◌
  bind-ok m f d h =
      let (r, d') = m d in
      let (a, e, h') = continue-ok r d' f h in (a, d', ap (λ (x : Result Text A). (x, d')) e, h')

-- A loop over a list for its effects.
unfoldable pub for_each : {D A : Type 0} → (A → Exec D Unit) → List A → Exec D Unit
for_each f [] = pure tt
for_each f (x ∷ xs) = f x >> for_each f xs
