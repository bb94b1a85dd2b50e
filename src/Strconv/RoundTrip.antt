-- ===== src/Strconv/RoundTrip.antt =====
-- Printing a 64-bit integer and reading it back.
use native.Mathlib.Nat.{pow-suc}
use axia_network_v2_magellan.Prelude.{
  ℕ, zero, suc, ◌+◌, ◌-◌, ◌*◌, ◌/◌, ◌%◌, ◌^◌, ◌<◌, ◌≡◌, refl, ap, sym, ◌∙◌, true, false, [], ◌∷◌,
  ◌++◌, none, some, ltb, arith, Bool-cases, inl, inr,
}
use axia_network_v2_magellan.Prelude.Int.{ℤ, pos, negsuc}
use axia_network_v2_magellan.Prelude.Text.{Text}
use axia_network_v2_magellan.Strconv.{digits_value, parse_uint, atoi, digits, itoa, is_digit}

digits_value-append :
    (n : ℕ) (s : Text) (c : ℕ)
    → digits_value n (s ++ c ∷ [])
      ≡ (elim (digits_value n s) [ none ↦ none | some m ↦ digits_value m (c ∷ []) ])
unfolding digits_value
digits_value-append n [] c = refl
digits_value-append n (d ∷ s) c = elim (Bool-cases (is_digit d)) [
  | inl h ↦ ground (arith, digits_value-append (n * 10 + (d - 48)) s c)
  | inr h ↦ ground arith
]

fuel_left : (fuel n : ℕ) → n < 10 ^ fuel * 10 → ltb n 10 ≡ false → 0 < fuel
fuel_left zero n h large = ground arith
fuel_left (suc fuel) n h large = omega arith

-- The values of a Go `int` on a 64-bit machine.
abbrev pub Fits : ℤ → Type 0
Fits (pos n) = n < 2 ^ 63
Fits (negsuc n) = n < 2 ^ 63

digits_value-digits :
    (fuel n : ℕ) → n < 10 ^ fuel → 0 < fuel → digits_value 0 (digits fuel n) ≡ some n
unfolding digits_value digits
digits_value-digits zero n h p = elim p [ ]
digits_value-digits (suc fuel) n h p = elim (Bool-cases (ltb n 10)) [
  | inl small ↦ rw (small, digits) (ground arith)
  | inr large ↦
      let room : n < 10 ^ fuel * 10 = rw (← pow-suc) h in
      let some_fuel : 0 < fuel = fuel_left fuel n room large in
      let head : digits_value 0 (digits fuel (n / 10)) ≡ some (n / 10) =
        digits_value-digits fuel (n / 10) (omega arith) some_fuel in
      rw (large, digits)
        (digits_value-append 0 (digits fuel (n / 10)) (48 + n % 10) ∙ ground (arith, head))
]

-- A printed number begins with a digit, and not with a sign.
digits-cons :
    (fuel n : ℕ)
    → n < 10 ^ fuel
    → 0 < fuel
    → (c : ℕ) × (s : Text) × (digits fuel n ≡ c ∷ s) × (is_digit c ≡ true)
unfolding digits
digits-cons zero n h p = elim p [ ]
digits-cons (suc fuel) n h p = elim (Bool-cases (ltb n 10)) [
  | inl small ↦ (48 + n, [], rw (small, digits), ground arith)
  | inr large ↦
      let room : n < 10 ^ fuel * 10 = rw (← pow-suc) h in
      let (c, s, e, d) = digits-cons fuel (n / 10) (omega arith) (fuel_left fuel n room large) in
      (c, s ++ (48 + n % 10) ∷ [], rw (large, digits, e) refl, d)
]

pub parse_uint-digits : (n : ℕ) → n < 2 ^ 64 → parse_uint 64 (digits 20 n) ≡ some n
unfolding parse_uint
parse_uint-digits n h =
    let (c, s, e, d) = digits-cons 20 n (omega arith) (omega arith) in
    let value : digits_value 0 (c ∷ s) ≡ some n =
      ap (digits_value 0) (sym e) ∙ digits_value-digits 20 n (omega arith) (omega arith) in
    rw e (ground (arith, value))

atoi_digit :
    (c n : ℕ) (s : Text)
    → is_digit c ≡ true
    → parse_uint 64 (c ∷ s) ≡ some n
    → n < 2 ^ 63
    → atoi (c ∷ s) ≡ some (pos n)
unfolding atoi
atoi_digit c n s d p h = ground arith

-- An integer of 64 bits is read back as it was printed.
pub atoi-itoa : (a : ℤ) → Fits a → atoi (itoa a) ≡ some a
unfolding atoi itoa
atoi-itoa (pos n) h =
    let (c, s, e, d) = digits-cons 20 n (omega arith) (omega arith) in
    let value : parse_uint 64 (c ∷ s) ≡ some n =
      ap (parse_uint 64) (sym e) ∙ parse_uint-digits n (omega arith) in
    rw e (atoi_digit c n s d value h)
atoi-itoa (negsuc n) h = ground (arith, parse_uint-digits (n + 1) (omega arith))

pub itoa-injective : (a b : ℤ) → Fits a → Fits b → itoa a ≡ itoa b → a ≡ b
itoa-injective a b ha hb e = cc (atoi-itoa a ha, atoi-itoa b hb, ap atoi e)
