-- ===== src/Go/Decimal.antt =====
-- What `Itoa` writes, the readers of package strconv read back; and how texts that are joined by a
-- separator are split.
use kaven_dns.Go.Strconv.{
  bounded_value, bounded_natural, digits, itoa, digits_value, natural, parse_uint, is_digit,
}
use kaven_dns.Go.Strings.{split_from}
use kaven_dns.Prelude.{
  some, [], ◌∷◌, zero, suc, true, false, inl, inr, refl, arith, ℕ, ◌≡◌, Text, leb, ◌≤◌,
  append_assoc, ◌⊎◌, is_empty, append-nil, ap, ◌∙◌, ◌/◌, ◌++◌, lt→ltb, ◌^◌, ◌==◌, ◌-◌, Bool-cases,
  ◌<◌, ◌+◌, ◌*◌, ◌%◌, any, all,
}

-- `10 ^ fuel`
unfoldable reach : ℕ → ℕ
reach zero = 1
reach (suc fuel) = 10 * reach fuel

low_digit : (n : ℕ) → is_digit (n % 10 + b'0') ≡ true
unfolding is_digit
low_digit n = ground arith

digits_value-step :
    (m d : ℕ) (s : Text)
    → is_digit (d + b'0') ≡ true
    → digits_value m ((d + b'0') ∷ s) ≡ digits_value (m * 10 + d) s
unfolding digits_value
digits_value-step m d s h = let same : d + b'0' - b'0' ≡ d = omega arith in rw (h, same) refl

digits_value-digits :
    (fuel left : ℕ) (out : Text)
    → left < reach fuel
    → digits_value 0 (digits fuel left out) ≡ digits_value left out
unfolding digits reach
digits_value-digits zero left out h = let none_left : left ≡ 0 = omega arith in rw none_left refl
digits_value-digits (suc fuel) left out h = elim (Bool-cases (left == 0)) [
  | inl z ↦ let none_left : left ≡ 0 = ground arith in rw none_left refl
  | inr z ↦
      let whole : left / 10 * 10 + left % 10 ≡ left = omega arith in
      rw z (
        digits_value-digits fuel (left / 10) ((left % 10 + b'0') ∷ out) (omega arith)
        ∙ digits_value-step (left / 10) (left % 10) out (low_digit left)
        ∙ ap (λ n. digits_value n out) whole)
]

natural_of : (s : Text) (n : ℕ) → (n == 0) ≡ false → digits_value 0 s ≡ some n → natural s ≡ some n
unfolding natural digits_value
natural_of [] n h e = absurd (cc (h, e))
natural_of (c ∷ s) n h e = e

itoa_zero : itoa 0 ≡ b'0' ∷ []
unfolding itoa
itoa_zero = refl

itoa_positive : (n : ℕ) → (n == 0) ≡ false → itoa n ≡ digits 20 n []
unfolding itoa
itoa_positive n h = rw h refl

natural_zero : natural (b'0' ∷ []) ≡ some 0
unfolding natural
natural_zero = refl

reach_word : (n : ℕ) → n < 2 ^ 64 → n < reach 20
unfolding reach
reach_word n h = omega arith

digits_value_end : (n : ℕ) → digits_value n [] ≡ some n
unfolding digits_value
digits_value_end n = refl

pub natural-itoa : (n : ℕ) → n < 2 ^ 64 → natural (itoa n) ≡ some n
natural-itoa n h = elim (Bool-cases (n == 0)) [
  | inl z ↦ let none_left : n ≡ 0 = ground arith in rw (none_left, itoa_zero) natural_zero
  | inr z ↦ rw (itoa_positive n z) (
      natural_of (digits 20 n []) n z
        (digits_value-digits 20 n [] (reach_word n h) ∙ digits_value_end n))
]

parse_uint_lem : (s : Text) (n : ℕ) → natural s ≡ some n → n < 2 ^ 64 → parse_uint s ≡ some n
unfolding parse_uint
parse_uint_lem s n e h = rw (e, lt→ltb n (2 ^ 64) h) refl

pub parse_uint-itoa : (n : ℕ) → n < 2 ^ 64 → parse_uint (itoa n) ≡ some n
parse_uint-itoa n h = parse_uint_lem (itoa n) n (natural-itoa n h) h

digits-digits :
    (fuel left : ℕ) (out : Text)
    → all is_digit out ≡ true
    → all is_digit (digits fuel left out) ≡ true
unfolding digits
digits-digits zero left out h = h
digits-digits (suc fuel) left out h = elim (Bool-cases (left == 0)) [
  | inl z ↦ rw z h
  | inr z ↦ rw z (
      digits-digits fuel (left / 10) ((left % 10 + b'0') ∷ out)
        (let low = low_digit left in rw (low, h) refl))
]

zero_digits : all is_digit (b'0' ∷ []) ≡ true
unfolding is_digit
zero_digits = refl

pub itoa-digits : (n : ℕ) → all is_digit (itoa n) ≡ true
itoa-digits n = elim (Bool-cases (n == 0)) [
  | inl z ↦ let none_left : n ≡ 0 = ground arith in rw (none_left, itoa_zero) zero_digits
  | inr z ↦ rw (itoa_positive n z) (digits-digits 20 n [] refl)
]

Text-cases : (s : Text) → (s ≡ []) ⊎ ((c : ℕ) × (t : Text) × (s ≡ c ∷ t))
Text-cases [] = inl refl
Text-cases (c ∷ s) = inr (c, s, refl)

pub itoa_nonempty : (n : ℕ) → n < 2 ^ 64 → is_empty (itoa n) ≡ false
unfolding natural
itoa_nonempty n h = elim (Text-cases (itoa n)) [
  | inl e ↦ let read = natural-itoa n h in absurd (cc (rw e at read))
  | inr (c, s, e) ↦ rw e refl
]

-- A text before a separator that it does not contain is the first part.
pub split_from-append :
    (sep : ℕ) (cur s rest : Text)
    → any (λ c. c == sep) s ≡ false
    → split_from sep cur (s ++ sep ∷ rest) ≡ (cur ++ s) ∷ split_from sep [] rest
unfolding split_from
split_from-append sep cur [] rest h = ground (arith, append-nil cur)
split_from-append sep cur (c ∷ s) rest h =
    ground (arith, split_from-append sep (cur ++ c ∷ []) s rest, append_assoc cur (c ∷ []) s)

pub split_from_whole :
    (sep : ℕ) (cur s : Text)
    → any (λ c. c == sep) s ≡ false
    → split_from sep cur s ≡ (cur ++ s) ∷ []
unfolding split_from
split_from_whole sep cur [] h = rw (append-nil cur) refl
split_from_whole sep cur (c ∷ s) h =
    ground (arith, split_from_whole sep (cur ++ c ∷ []) s, append_assoc cur (c ∷ []) s)

digits_value_le : (m n : ℕ) (s : Text) → digits_value m s ≡ some n → m ≤ n
unfolding digits_value
digits_value_le m n [] h = let same : m ≡ n = cc h in omega arith
digits_value_le m n (c ∷ s) h = elim (Bool-cases (is_digit c)) [
  | inl d ↦ omega (arith, digits_value_le (m * 10 + (c - b'0')) n s (rw d at h))
  | inr d ↦ absurd (cc (rw d at h))
]

not_above : (m n : ℕ) → m ≤ n → n < 2 ^ 64 → leb (2 ^ 64) m ≡ false
not_above m n h fits = ground arith

bounded_value_lem :
    (m n : ℕ) (s : Text) → digits_value m s ≡ some n → n < 2 ^ 64 → bounded_value m s ≡ some n
unfolding digits_value bounded_value
bounded_value_lem m n [] h fits = h
bounded_value_lem m n (c ∷ s) h fits = elim (Bool-cases (is_digit c)) [
  | inl d ↦
      let next = rw d at h in
      let small : leb (2 ^ 64) (m * 10 + (c - b'0')) ≡ false =
        not_above (m * 10 + (c - b'0')) n (digits_value_le (m * 10 + (c - b'0')) n s next) fits in
      rw (d, small) (bounded_value_lem (m * 10 + (c - b'0')) n s next fits)
  | inr d ↦ absurd (cc (rw d at h))
]

bounded_natural_lem :
    (s : Text) (n : ℕ) → natural s ≡ some n → n < 2 ^ 64 → bounded_natural s ≡ some n
unfolding natural bounded_natural
bounded_natural_lem [] n h fits = absurd (cc h)
bounded_natural_lem (c ∷ s) n h fits = bounded_value_lem 0 n (c ∷ s) h fits

pub bounded_natural-itoa : (n : ℕ) → n < 2 ^ 64 → bounded_natural (itoa n) ≡ some n
bounded_natural-itoa n h = bounded_natural_lem (itoa n) n (natural-itoa n h) h
