-- ===== src/Pvm/Writer/Strict.antt =====
-- The collected errors of services/indexes/pvm/writer.go, against steps that end at the first error.
use axia_network_v2_magellan.Prelude.{ℕ, List, [], ◌∷◌, Option, none, some, ◌≡◌, refl, sym, ◌∙◌}
use axia_network_v2_magellan.Prelude.Text.{Text}
use axia_network_v2_magellan.Prelude.Result.{Result, ok, err}
use axia_network_v2_magellan.Db.Exec.{Exec, continue, lift, pure, ◌>>=◌, ◌>>◌}
use axia_network_v2_magellan.Axc.Outputs.{Writer}
use axia_network_v2_magellan.Pvm.Node.{Platform}
use axia_network_v2_magellan.Pvm.Writer.Blocks.{
  add_all, add_err, block_steps, decoded_block, index_block, index_proposer,
}

-- The steps, up to the first that fails
unfoldable pub in_turn : {D : Type 0} → List (Exec D Unit) → Exec D Unit
in_turn [] = pure tt
in_turn (m ∷ steps) = m >> in_turn steps

-- Two outcomes with the same result, and with the same state if it is not an error.
abbrev pub AgreesOnSuccess : {D : Type 0} → Result Text Unit × D → Result Text Unit × D → Type 0
AgreesOnSuccess out strict = (out.0 ≡ strict.0) × (out.0 ≡ ok tt → out ≡ strict)

abbrev failed : Text → Result Text Unit
failed e = err e

err_ne_ok : {e : Text} {B : Type 0} → failed e ≡ ok tt → B
err_ne_ok h = cc

add_all-some :
    {D : Type 0} (steps : List (Exec D Unit)) (e : Text) (d : D)
    → (add_all steps (some e) d).0 ≡ err e
unfolding add_all
add_all-some [] e d = refl
add_all-some (m ∷ steps) e d = add_all-some steps e (m d).1

after_step :
    {D : Type 0} (steps : List (Exec D Unit)) (r : Result Text Unit) (d' : D)
    → ((d : D) → AgreesOnSuccess (add_all steps none d) (in_turn steps d))
    → AgreesOnSuccess (add_all steps (add_err none r) d') (continue r (λ u. in_turn steps) d')
after_step steps (ok u) d' h = h d'
after_step steps (err e) d' h =
    (add_all-some steps e d', λ q. err_ne_ok (sym (add_all-some steps e d') ∙ q))

add_all-in_turn :
    {D : Type 0} (steps : List (Exec D Unit)) (d : D)
    → AgreesOnSuccess (add_all steps none d) (in_turn steps d)
unfolding add_all in_turn ◌>>=◌ pure
add_all-in_turn [] d = (refl, λ q. refl)
add_all-in_turn (m ∷ steps) d = after_step steps (m d).0 (m d).1 (λ d'. add_all-in_turn steps d')

bind-AgreesOnSuccess :
    {D A : Type 0} (m : Exec D A) (f g : A → Exec D Unit) (d : D)
    → ((a : A) (d' : D) → AgreesOnSuccess (f a d') (g a d'))
    → AgreesOnSuccess ((m >>= f) d) ((m >>= g) d)
unfolding ◌>>=◌
bind-AgreesOnSuccess m f g d h = continued (m d).0 (m d).1
  where
    continued : (r : Result Text _) (d' : _) → AgreesOnSuccess (continue r f d') (continue r g d')
    continued (ok a) d' = h a d'
    continued (err e) d' = (refl, λ q. refl)

-- All of the steps, whatever their results are
unfoldable pub run_all : {D : Type 0} → List (Exec D Unit) → Exec D Unit
run_all [] d = (ok tt, d)
run_all (m ∷ steps) d = run_all steps (m d).1

add_all-run_all :
    {D : Type 0} (steps : List (Exec D Unit)) (errs : Option Text) (d : D)
    → (add_all steps errs d).1 ≡ (run_all steps d).1
unfolding add_all run_all
add_all-run_all [] errs d = refl
add_all-run_all (m ∷ steps) errs d = add_all-run_all steps (add_err errs (m d).0) (m d).1

bind-state :
    {D A : Type 0} (m : Exec D A) (f g : A → Exec D Unit) (d : D)
    → ((a : A) (d' : D) → (f a d').1 ≡ (g a d').1)
    → ((m >>= f) d).1 ≡ ((m >>= g) d).1
unfolding ◌>>=◌
bind-state m f g d h = continued (m d).0 (m d).1
  where
    continued : (r : Result Text _) (d' : _) → (continue r f d').1 ≡ (continue r g d').1
    continued (ok a) d' = h a d'
    continued (err e) d' = refl

module _ {D : Type 0} (w : Writer D) (p : Platform) where
  -- `indexBlock`, if it ended at the first error.
  unfoldable pub index_block_in_turn : List ℕ → Exec D Unit
  index_block_in_turn proposer_bytes = do
    (block_bytes, version, blk, proposer) ←
        lift (decoded_block w p proposer_bytes (p.parse_proposer proposer_bytes))
    index_proposer w p proposer_bytes (p.hash_id block_bytes) proposer
    steps ← lift (block_steps w p version (p.hash_id block_bytes) block_bytes blk)
    in_turn steps

  -- `indexBlock`, if it did not look at the results of a block's steps.
  unfoldable pub index_block_heedless : List ℕ → Exec D Unit
  index_block_heedless proposer_bytes = do
    (block_bytes, version, blk, proposer) ←
        lift (decoded_block w p proposer_bytes (p.parse_proposer proposer_bytes))
    index_proposer w p proposer_bytes (p.hash_id block_bytes) proposer
    steps ← lift (block_steps w p version (p.hash_id block_bytes) block_bytes blk)
    run_all steps

  -- `indexBlock` runs every step of a block, also after one has failed: it leaves the state of a writer
  -- that does not look at the results of the steps. Still it returns what a writer would that ends at the
  -- first error, and where it succeeds it leaves the state that this one leaves, too.
  pub index_block-in_turn :
      (proposer_bytes : List ℕ) (d : D)
      → AgreesOnSuccess (index_block w p proposer_bytes d) (index_block_in_turn proposer_bytes d)
        × ((index_block w p proposer_bytes d).1 ≡ (index_block_heedless proposer_bytes d).1)
  unfolding index_block index_block_in_turn index_block_heedless
  index_block-in_turn proposer_bytes d = (
    bind-AgreesOnSuccess _ _ _ d (λ (block_bytes, version, blk, proposer) d1.
        bind-AgreesOnSuccess _ _ _ d1
          (λ u d2. bind-AgreesOnSuccess _ _ _ d2 (λ steps d3. add_all-in_turn steps d3))),
    bind-state _ _ _ d (λ (block_bytes, version, blk, proposer) d1.
        bind-state _ _ _ d1
          (λ u d2. bind-state _ _ _ d2 (λ steps d3. add_all-run_all steps none d3))),
  )
