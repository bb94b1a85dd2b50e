-- ===== src/Strconv.antt =====
-- The functions of Go's strconv and strings packages that the request parameters are parsed and
-- printed with, on byte strings.
pub mod RoundTrip
use axia_network_v2_magellan.Prelude.{
  ℕ, zero, suc, ◌+◌, ◌-◌, ◌*◌, ◌/◌, ◌%◌, ◌^◌, Bool, true, false, ◌&&◌, ◌||◌, List, [], ◌∷◌, ◌++◌,
  Option, none, some, ltb, leb, nat_beq, if◌then◌else◌,
}
use axia_network_v2_magellan.Prelude.Int.{ℤ, pos, negsuc}
use axia_network_v2_magellan.Prelude.Eq.{◌==◌}
use axia_network_v2_magellan.Prelude.Text.{Text, codes, text_eq}

abbrev pub is_digit : ℕ → Bool
is_digit c = leb 48 c && leb c 57

-- The value of a run of decimal digits behind the value `n` of those before it.
unfoldable pub digits_value : ℕ → Text → Option ℕ
digits_value n [] = some n
digits_value n (c ∷ s) = elim (is_digit c) [
  | true ↦ digits_value (n * 10 + (c - 48)) s
  | false ↦ none
]

-- `strconv.ParseUint(s, 10, bits)`; `none` is a `*NumError`.
unfoldable pub parse_uint : ℕ → Text → Option ℕ
unfolding digits_value
parse_uint bits [] = none
parse_uint bits (c ∷ s) = elim (digits_value 0 (c ∷ s)) [
  | none ↦ none
  | some n ↦ if ltb n (2 ^ bits) then some n else none
]

abbrev pub negate : ℕ → ℤ
negate zero = pos 0
negate (suc n) = negsuc n

-- `strconv.Atoi(s)` with 64-bit integers: an optional sign, and digits.
abbrev pub signed : Bool → Option ℕ → Option ℤ
signed neg none = none
signed true (some n) = if leb n (2 ^ 63) then some (negate n) else none
signed false (some n) = if ltb n (2 ^ 63) then some (pos n) else none

unfoldable pub atoi : Text → Option ℤ
atoi [] = none
atoi (c ∷ s) =
    if nat_beq c b'-'
    then signed true (parse_uint 64 s)
    else if nat_beq c b'+'
    then signed false (parse_uint 64 s)
    else signed false (parse_uint 64 (c ∷ s))

-- `strconv.ParseBool(s)`
unfoldable pub parse_bool : Text → Option Bool
parse_bool s =
    if s == codes "1"
      || s == codes "t"
      || s == codes "T"
      || s == codes "true"
      || s == codes "TRUE"
      || s == codes "True"
    then some true
    else if s == codes "0"
        || s == codes "f"
        || s == codes "F"
        || s == codes "false"
        || s == codes "FALSE"
        || s == codes "False"
    then some false
    else none

-- The decimal digits of `n`; a number below `10 ^ fuel` needs no more fuel.
unfoldable pub digits : ℕ → ℕ → Text
digits zero n = []
digits (suc fuel) n =
    let more = digits fuel (n / 10) ++ (48 + n % 10) ∷ [] in
    if ltb n 10 then (48 + n) ∷ [] else more

-- `%d` and `%v` of an integer of 64 bits, which has at most 20 digits.
unfoldable pub itoa : ℤ → Text
unfolding digits
itoa (pos n) = digits 20 n
itoa (negsuc n) = b'-' ∷ digits 20 (n + 1)

-- `%v` of a boolean
abbrev pub format_bool : Bool → Text
format_bool true = codes "true"
format_bool false = codes "false"

-- `strings.HasPrefix(s, p)`
unfoldable pub has_prefix : Text → Text → Bool
has_prefix s [] = true
has_prefix [] (d ∷ p) = false
has_prefix (c ∷ s) (d ∷ p) = nat_beq c d && has_prefix s p

-- `s[len(p):]`
unfoldable pub skip : Text → Text → Text
skip [] s = s
skip (d ∷ p) [] = []
skip (d ∷ p) (c ∷ s) = skip p s

-- `strings.TrimPrefix(s, p)`
unfoldable pub trim_prefix : Text → Text → Text
unfolding has_prefix skip
trim_prefix s p = if has_prefix s p then skip p s else s

-- `strings.Join(parts, sep)`
unfoldable pub join : Text → List Text → Text
join sep [] = []
join sep (s ∷ []) = s
join sep (s ∷ t ∷ rest) = s ++ sep ++ join sep (t ∷ rest)

-- `new(big.Int).SetString(s, 10)`: an optional sign, and digits, of any size.
abbrev pub big_signed : Bool → Option ℕ → Option ℤ
big_signed neg none = none
big_signed true (some n) = some (negate n)
big_signed false (some n) = some (pos n)

abbrev pub big_digits : Text → Option ℕ
big_digits [] = none
big_digits (c ∷ s) = digits_value 0 (c ∷ s)

unfoldable pub big_int_set_string : Text → Option ℤ
big_int_set_string [] = none
big_int_set_string (c ∷ s) =
    if nat_beq c b'-'
    then big_signed true (big_digits s)
    else if nat_beq c b'+'
    then big_signed false (big_digits s)
    else big_signed false (big_digits (c ∷ s))
