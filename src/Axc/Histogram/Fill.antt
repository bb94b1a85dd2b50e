-- ===== src/Axc/Histogram/Fill.antt =====
-- Where the loop of services/indexes/axc/reader.go puts the rows of a histogram.
use mathlib.Core.List.{append_assoc, append-nil}
use axia_network_v2_magellan.Prelude.{
  ℕ, zero, suc, ◌+◌, ◌-◌, ◌≤◌, ◌<◌, List, [], ◌∷◌, ◌++◌, if◌then◌else◌, length, length-append,
  nat_beq, ◌≡◌, refl, sym, ap, ap₂, ◌∙◌, arith,
}
use axia_network_v2_magellan.Prelude.Result.{Result, ok, err, ◌>>=◌}
use axia_network_v2_magellan.Axc.Aggregates.{AggregateError}
use axia_network_v2_magellan.Axc.Histogram.{pad, pad_to, fill}

abbrev pub with_row : {T B : Type 0} → B → T → Result AggregateError (T × B)
with_row b t = ok (t, b)

unfoldable pub totals :
    {A T : Type 0} → (T → A → Result AggregateError T) → T → List A → Result AggregateError T
totals add t [] = ok t
totals add t (x ∷ xs) = add t x >>= λ t'. totals add t' xs

module _ {A : Type 0} (idx : A → ℕ) (blank : ℕ → A) (stamp : A → A) where
  -- The rows come in ascending order of their intervals, each in one of those from `n` to `count`.
  abbrev pub Ascends : ℕ → ℕ → List A → Type 0
  Ascends n count [] = Unit
  Ascends n count (x ∷ xs) = (n ≤ idx x) × (idx x < count) × Ascends (suc (idx x)) count xs

  -- What the interval `i` shows: the stamped row of it, or an empty one.
  unfoldable pub shown : ℕ → List A → A
  shown i [] = blank i
  shown i (x ∷ xs) = if nat_beq (idx x) i then stamp x else shown i xs

  -- The intervals from `n` on, `k` of them
  unfoldable pub laid : ℕ → ℕ → List A → List A
  laid n zero xs = []
  laid n (suc k) xs = shown n xs ∷ laid (suc n) k xs

  unfoldable pub place : List A → List A → List A
  place slice [] = slice
  place slice (x ∷ xs) = place (pad_to blank slice (idx x) ++ (stamp x ∷ [])) xs

  shown-below : (i n count : ℕ) (xs : List A) → i < n → Ascends n count xs → shown i xs ≡ blank i
  unfolding shown
  shown-below i n count [] h a = refl
  shown-below i n count (x ∷ xs) h a =
      ground (arith, shown-below i (suc (idx x)) count xs (omega (arith, a.0, h)) a.2, a.0, h)

  laid-skip : (n k : ℕ) (x : A) (xs : List A) → idx x < n → laid n k (x ∷ xs) ≡ laid n k xs
  unfolding laid shown
  laid-skip n zero x xs h = refl
  laid-skip n (suc k) x xs h = ground (arith, laid-skip (suc n) k x xs (omega (arith, h)), h)

  -- Padding a slice, when the next row is not before the end of it, adds empty intervals.
  pad-laid :
      (slice : List A) (n k m count : ℕ) (xs : List A)
      → length slice ≡ n
      → n + k ≤ m
      → Ascends m count xs
      → pad blank k slice ≡ slice ++ laid n k xs
  unfolding pad laid
  pad-laid slice n zero m count xs e h a = sym (append-nil slice)
  pad-laid slice n (suc k) m count xs e h a =
      let b : length (slice ++ (blank (length slice) ∷ [])) ≡ suc n =
        length-append slice (blank (length slice) ∷ []) ∙ omega (arith, e) in
      let ih =
        pad-laid (slice ++ (blank (length slice) ∷ [])) (suc n) k m count xs b (omega (arith, h))
          a in
      let s : shown n xs ≡ blank (length slice) =
        shown-below n m count xs (omega (arith, h)) a ∙ ap blank (sym e) in
      ih ∙ rw (s, append_assoc) refl

  pub length-laid : (n k : ℕ) (xs : List A) → length (laid n k xs) ≡ k
  unfolding laid
  length-laid n zero xs = refl
  length-laid n (suc k) xs = ground (arith, length-laid (suc n) k xs)

  laid-split :
      (n j k m total : ℕ) (xs : List A)
      → n + j ≡ m
      → total ≡ j + suc k
      → laid n total xs ≡ laid n j xs ++ (shown m xs ∷ laid (suc m) k xs)
  unfolding laid
  laid-split n zero k m total xs e f =
      let e' : n ≡ m = omega (arith, e) in
      let f' : total ≡ suc k = omega (arith, f) in rw (e', f') refl
  laid-split n (suc j) k m total xs e f =
      let f' : total ≡ suc (j + suc k) = omega (arith, f) in
      rw f' (
        ap (λ (l : List A). shown n xs ∷ l)
          (laid-split (suc n) j k m (j + suc k) xs (omega (arith, e)) refl))

  shown_self : (x : A) (xs : List A) → shown (idx x) (x ∷ xs) ≡ stamp x
  unfolding shown
  shown_self x xs = ground arith

  pub pad_to-place :
      (xs slice : List A) (n count : ℕ)
      → length slice ≡ n
      → n ≤ count
      → Ascends n count xs
      → pad_to blank (place slice xs) count ≡ slice ++ laid n (count - n) xs
  unfolding place pad_to
  pad_to-place [] slice n count e h a =
      rw e (pad-laid slice n (count - n) count count [] e (omega (arith, h)) tt)
  pad_to-place (x ∷ xs) slice n count e h a =
      let j : ℕ = idx x - n in
      let p : pad blank (idx x - length slice) slice ≡ slice ++ laid n j (x ∷ xs) = rw e (
        pad-laid slice n j (idx x) count (x ∷ xs) e (omega (arith, a.0)) (omega arith, a.1, a.2)) in
      let q : length ((slice ++ laid n j (x ∷ xs)) ++ (stamp x ∷ [])) ≡ suc (idx x) =
        length-append (slice ++ laid n j (x ∷ xs)) (stamp x ∷ [])
        ∙ omega
            (arith, length-append slice (laid n j (x ∷ xs)), length-laid n j (x ∷ xs), e, a.0) in
      let ih =
        pad_to-place xs ((slice ++ laid n j (x ∷ xs)) ++ (stamp x ∷ [])) (suc (idx x)) count q
          (omega (arith, a.1)) a.2 in
      let left : List A = laid n j (x ∷ xs) in
      let right : List A = laid (suc (idx x)) (count - suc (idx x)) xs in
      let t : laid n (count - n) (x ∷ xs) ≡ left ++ (stamp x ∷ right) =
        laid-split n j (count - suc (idx x)) (idx x) (count - n) (x ∷ xs) (omega (arith, a.0))
          (omega (arith, a.0, a.1))
        ∙ ap₂ (λ (y : A) (r : List A). left ++ (y ∷ r)) (shown_self x xs)
            (laid-skip (suc (idx x)) (count - suc (idx x)) x xs (omega arith)) in
      ap (λ (l : List A). pad_to blank (place (l ++ (stamp x ∷ [])) xs) count) p
      ∙ ih
      ∙ append_assoc (slice ++ left) (stamp x ∷ []) right
      ∙ append_assoc slice left (stamp x ∷ right)
      ∙ ap (λ (l : List A). slice ++ l) (sym t)

  -- `step` stamps a row and has `add` for the totals.
  abbrev pub Adds :
      {T : Type 0}
      → (T → A → Result AggregateError T)
      → (T → A → Result AggregateError (T × A))
      → Type 0
  Adds add step = (t : _) (x : A) → step t x ≡ (add t x >>= with_row (stamp x))

  one_row :
      {T : Type 0} (add : T → A → Result AggregateError T)
      (step : T → A → Result AggregateError (T × A)) (x : A) (xs slice : List A)
      → ((t : T) (s : List A)
          → fill idx blank step xs (t, s) ≡ (totals add t xs >>= with_row (place s xs)))
      → (r : Result AggregateError T)
      → ((r >>= with_row (stamp x)) >>= λ q.
          fill idx blank step xs (q.0, pad_to blank slice (idx x) ++ (q.1 ∷ [])))
        ≡ ((r >>= λ t'. totals add t' xs) >>= with_row (place slice (x ∷ xs)))
  unfolding place
  one_row add step x xs slice ih (ok t) = ih t (pad_to blank slice (idx x) ++ (stamp x ∷ []))
  one_row add step x xs slice ih (err e) = refl

  pub fill-totals :
      {T : Type 0} (add : T → A → Result AggregateError T)
      (step : T → A → Result AggregateError (T × A)) (steps : Adds add step) (xs : List A) (t : T)
      (slice : List A)
      → fill idx blank step xs (t, slice) ≡ (totals add t xs >>= with_row (place slice xs))
  unfolding fill totals place
  fill-totals add step steps [] t slice = refl
  fill-totals add step steps (x ∷ xs) t slice =
      rw (steps t x) (one_row add step x xs slice (fill-totals add step steps xs) (add t x))
