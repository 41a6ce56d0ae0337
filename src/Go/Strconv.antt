-- ===== src/Go/Strconv.antt =====
-- Package strconv: decimal numbers.
use kaven_dns.Prelude.{
  none, some, [], ◌∷◌, zero, suc, refl, pos, negsuc, ℕ, ◌≡◌, Text, Bool, Option, ◌+◌, ◌-◌, ◌*◌, ◌/◌,
  ◌%◌, ◌^◌, ◌&&◌, ℤ, codes, ltb, leb, ◌==◌, if◌then◌else◌,
}

-- The decimal digits of a number, with fuel: a round for each digit.
unfoldable pub digits : ℕ → ℕ → Text → Text
digits zero left out = out
digits (suc fuel) left out =
    let more = digits fuel (left / 10) ((left % 10 + b'0') ∷ out) in if left == 0 then out else more

unfoldable pub itoa : ℕ → Text
unfolding digits
itoa n = if n == 0 then b'0' ∷ [] else digits 20 n []

unfoldable pub is_digit : ℕ → Bool
is_digit c = leb b'0' c && leb c b'9'

-- The value of a run of digits, with no bound; `none` at another byte.
unfoldable pub digits_value : ℕ → Text → Option ℕ
unfolding is_digit
digits_value n [] = some n
digits_value n (c ∷ s) = if is_digit c then digits_value (n * 10 + (c - b'0')) s else none

unfoldable pub natural : Text → Option ℕ
unfolding digits_value
natural [] = none
natural (c ∷ s) = digits_value 0 (c ∷ s)

abbrev pub in_word : Option ℕ → Option ℕ
in_word none = none
in_word (some n) = if ltb n (2 ^ 64) then some n else none

-- `ParseUint(s, 10, 64)`, where an error is `none`.
unfoldable pub parse_uint : Text → Option ℕ
unfolding natural
parse_uint s = in_word (natural s)

unfoldable pub positive : Option ℕ → Option ℤ
positive none = none
positive (some n) = if ltb n (2 ^ 63) then some (pos n) else none

unfoldable pub negative : Option ℕ → Option ℤ
negative none = none
negative (some zero) = some (pos 0)
negative (some (suc n)) = if ltb n (2 ^ 63) then some (negsuc n) else none

-- `Atoi(s)`, where an error is `none`.
unfoldable pub atoi : Text → Option ℤ
unfolding natural positive negative
atoi [] = none
atoi (c ∷ s) =
    if c == b'-'
    then negative (natural s)
    else if c == b'+'
    then positive (natural s)
    else positive (natural (c ∷ s))

-- The value of a run of digits, which is read no further than a value of 64 bits goes.
unfoldable pub bounded_value : ℕ → Text → Option ℕ
unfolding is_digit
bounded_value n [] = some n
bounded_value n (c ∷ s) =
    let m = n * 10 + (c - b'0') in
    let rest = bounded_value m s in
    if is_digit c then (if leb (2 ^ 64) m then some (2 ^ 64 - 1) else rest) else none

unfoldable pub bounded_natural : Text → Option ℕ
unfolding bounded_value
bounded_natural [] = none
bounded_natural (c ∷ s) = bounded_value 0 (c ∷ s)

abbrev pub at_most_max : Option ℕ → ℤ
at_most_max none = pos 0
at_most_max (some n) = if ltb n (2 ^ 63) then pos n else pos (2 ^ 63 - 1)

abbrev pub at_least_min : Option ℕ → ℤ
at_least_min none = pos 0
at_least_min (some zero) = pos 0
at_least_min (some (suc n)) = if ltb n (2 ^ 63) then negsuc n else negsuc (2 ^ 63 - 1)

-- The value that `ParseInt(s, 10, 64)` returns, with or without an error: 0 for a text that is no number,
-- and the nearest value for a number out of range.
unfoldable pub parse_int : Text → ℤ
unfolding bounded_natural
parse_int [] = pos 0
parse_int (c ∷ s) =
    if c == b'-'
    then at_least_min (bounded_natural s)
    else if c == b'+'
    then at_most_max (bounded_natural s)
    else at_most_max (bounded_natural (c ∷ s))

parse_int_test : parse_int (codes "99999999999999999999x") ≡ pos 9223372036854775807
unfolding parse_int
parse_int_test = refl

itoa_test : itoa 1203 ≡ codes "1203"
unfolding itoa
itoa_test = refl

atoi_test : atoi (codes "-12") ≡ some (negsuc 11)
unfolding atoi
atoi_test = refl
