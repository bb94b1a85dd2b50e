-- ===== src/Balance/Batches.antt =====
-- The groups in which balance/balance_manager.go processes its rows.
use mathlib.Core.List.{append_assoc}
use axia_network_v2_magellan.Prelude.{
  ◌+◌, ◌≤◌, ◌<◌, true, false, List, [], ◌∷◌, ◌++◌, ltb, ltb-false, length, length-append, All, ◌≡◌,
  refl, ap, ◌∙◌, arith, Bool-cases, inl, inr,
}
use axia_network_v2_magellan.Prelude.Text.{Text}
use axia_network_v2_magellan.Prelude.Result.{Result, ok, err}
use axia_network_v2_magellan.Db.Exec.{Exec, pure, ◌>>=◌, ◌>>◌, continue, for_each}
use axia_network_v2_magellan.Balance.{batch_loop, lock_size}

unfoldable pub concat : {A : Type 0} → List (List A) → List A
concat [] = []
concat (g ∷ groups) = g ++ concat groups

-- A group has a row, and at most one more than the lock size.
abbrev pub IsGroup : {A : Type 0} → List A → Type 0
IsGroup g = (0 < length g) × (length g ≤ lock_size + 1)

-- A list of groups that has the rows in order, and that the loop processes whatever `post` is.
pub record Grouped (D : Type 0) {A : Type 0} (rows trows : List A) : Type 0 where
  pub groups : List (List A)
  pub runs :
      (post : List A → Exec D Unit) (d : D) → batch_loop post rows trows d ≡ for_each post groups d
  pub whole : concat groups ≡ trows ++ rows
  pub sized : All IsGroup groups

unit_right : {D : Type 0} (r : Result Text Unit) (d : D) → (r, d) ≡ continue r (λ u. pure tt) d
unfolding pure
unit_right (ok u) d = refl
unit_right (err e) d = refl

only_one :
    {D A : Type 0} (post : List A → Exec D Unit) (g : List A) (d : D)
    → post g d ≡ (post g >> pure tt) d
unfolding ◌>>=◌
only_one post g d = let (r, d') = post g d in unit_right r d'

same_rest :
    {D : Type 0} (r : Result Text Unit) (k l : Exec D Unit) (d : D)
    → ((d' : D) → k d' ≡ l d')
    → continue r (λ u. k) d ≡ continue r (λ u. l) d
same_rest (ok u) k l d h = h d
same_rest (err e) k l d h = refl

first_group :
    {D A : Type 0} (post : List A → Exec D Unit) (g : List A) (k l : Exec D Unit) (d : D)
    → ((d' : D) → k d' ≡ l d')
    → (post g >> k) d ≡ (post g >> l) d
unfolding ◌>>=◌
first_group post g k l d h = let (r, d') = post g d in same_rest r k l d' h

full_group :
    {D A : Type 0} (row : A) (rows trows : List A)
    → length trows ≤ lock_size
    → ltb lock_size (length (trows ++ (row ∷ []))) ≡ true
    → Grouped D rows []
    → Grouped D (row ∷ rows) trows
unfolding batch_loop for_each concat
full_group row rows trows h full rest =
    let len : length (trows ++ (row ∷ [])) ≡ length trows + 1 = length-append trows (row ∷ []) in
    record {
      groups = (trows ++ (row ∷ [])) ∷ rest.groups;
      runs = λ post d.
          rw full (first_group post (trows ++ (row ∷ [])) _ _ d (λ d'. rest.runs post d'));
      whole =
          ap (λ (l : List _). (trows ++ (row ∷ [])) ++ l) rest.whole
          ∙ append_assoc trows (row ∷ []) rows;
      sized = ((omega (arith, len), omega (arith, len, h)), rest.sized);
    }

more_room :
    {D A : Type 0} (row : A) (rows trows : List A)
    → ltb lock_size (length (trows ++ (row ∷ []))) ≡ false
    → Grouped D rows (trows ++ (row ∷ []))
    → Grouped D (row ∷ rows) trows
unfolding batch_loop
more_room row rows trows room rest = record {
  groups = rest.groups;
  runs = λ post d. rw room (rest.runs post d);
  whole = rest.whole ∙ append_assoc trows (row ∷ []) rows;
  sized = rest.sized;
}

grouped : {D A : Type 0} (rows trows : List A) → length trows ≤ lock_size → Grouped D rows trows
unfolding batch_loop for_each concat
grouped [] [] h = record { groups = []; runs = λ post d. refl; whole = refl; sized = tt }
grouped [] (r ∷ trows) h = record {
  groups = (r ∷ trows) ∷ [];
  runs = λ post d. only_one post (r ∷ trows) d;
  whole = refl;
  sized = ((ground arith, ground (arith, h)), tt);
}
grouped (row ∷ rows) trows h = elim (Bool-cases (ltb lock_size (length (trows ++ (row ∷ []))))) [
  | inl full ↦ full_group row rows trows h full (grouped rows [] (omega arith))
  | inr room ↦
      more_room row rows trows room (
        grouped rows (trows ++ (row ∷ []))
          (ltb-false lock_size (length (trows ++ (row ∷ []))) room))
]

-- The loop over the rows is a loop over groups of them, of at most six rows each, that has every row
-- once and in order: it processes group after group, until one fails.
pub batch_loop-Grouped : (D : Type 0) {A : Type 0} (rows : List A) → Grouped D rows []
batch_loop-Grouped D rows = grouped rows [] (omega arith)
