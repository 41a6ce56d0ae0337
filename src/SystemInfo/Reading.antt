-- ===== src/SystemInfo/Reading.antt =====
-- What the lines of /proc say is what is read from them.
use kaven_dns.Go.{itoa, join, is_space}
use kaven_dns.Go.Decimal.{parse_uint-itoa, bounded_natural-itoa, itoa-digits, itoa_nonempty}
use kaven_dns.Go.Strconv.{is_digit}
use kaven_dns.Prelude.{
  none, some, [], ◌∷◌, zero, suc, true, false, refl, arith, ℕ, ◌≡◌, List, Text, length, ltb, take,
  map, codes, Text-discrete, ◌%◌, ◌+◌, append_assoc, get_elem?, append-nil, ap, ◌∙◌, ◌^◌, ◌==◌,
  ◌++◌, ◌<◌, is_empty, any, all, All,
}
use kaven_dns.SystemInfo.Sampling.{
  add_word, value_or_zero, parsed, white_from, white_fields, first_line, values_of, total_of,
  ticks_of, cpu_ticks, parse_cpu_stat, behind_paren, ticks_behind, parse_process_ticks,
}

-- A field: at least one byte, and no space.
abbrev pub IsField : Text → Type 0
IsField t = (is_empty t ≡ false) × (any is_space t ≡ false)

pub white_from_field :
    (cur t rest : Text)
    → any is_space t ≡ false
    → is_empty (cur ++ t) ≡ false
    → white_from cur (t ++ b' ' ∷ rest) ≡ (cur ++ t) ∷ white_from [] rest
unfolding white_from is_space
white_from_field cur [] rest h full = rw (append-nil cur) (ground arith)
white_from_field cur (c ∷ t) rest h full =
    ground (arith, white_from_field (cur ++ c ∷ []) t rest, append_assoc cur (c ∷ []) t)

white_from_last :
    (cur t : Text)
    → any is_space t ≡ false
    → is_empty (cur ++ t) ≡ false
    → white_from cur t ≡ (cur ++ t) ∷ []
unfolding white_from is_space
white_from_last cur [] h full = ground (arith, append-nil cur)
white_from_last cur (c ∷ t) h full =
    ground (arith, white_from_last (cur ++ c ∷ []) t, append_assoc cur (c ∷ []) t)

abbrev space : Text
space = b' ' ∷ []

white_from-join : (fs : List Text) → All IsField fs → white_from [] (join space fs) ≡ fs
unfolding join white_from
white_from-join [] h = refl
white_from-join (t ∷ []) ((full, plain), _) = white_from_last [] t plain full
white_from-join (t ∷ u ∷ ts) ((full, plain), more) =
    white_from_field [] t (join space (u ∷ ts)) plain full
    ∙ ap (◌∷◌ t) (white_from-join (u ∷ ts) more)

digit_no_space : (s : Text) → all is_digit s ≡ true → any is_space s ≡ false
unfolding is_digit is_space
digit_no_space [] h = refl
digit_no_space (c ∷ s) h = ground (arith, digit_no_space s)

pub itoa-IsField : (n : ℕ) → n < 2 ^ 64 → IsField (itoa n)
itoa-IsField n h = (itoa_nonempty n h, digit_no_space (itoa n) (itoa-digits n))

no_paren_lem : (s : Text) → any (λ c. c == b')') s ≡ false → behind_paren s ≡ none
unfolding behind_paren
no_paren_lem [] h = refl
no_paren_lem (c ∷ s) h = ground (arith, no_paren_lem s)

behind_paren-append :
    (pre rest : Text)
    → any (λ c. c == b')') rest ≡ false
    → behind_paren (pre ++ b')' ∷ rest) ≡ some rest
unfolding behind_paren
behind_paren-append [] rest h = rw (no_paren_lem rest h) refl
behind_paren-append (c ∷ pre) rest h = rw (behind_paren-append pre rest h) refl

parsed-itoa : (n : ℕ) → n < 2 ^ 64 → parsed (itoa n) ≡ n
unfolding parsed
parsed-itoa n h = ap value_or_zero (bounded_natural-itoa n h)

-- From a line of /proc/self/stat, `parse_process_ticks` reads the sum, in 64 bits, of the user and the system
-- time that stand as fields 11 and 12 behind the name of the program, whatever that name holds, spaces and
-- parentheses too, if the fields behind it have neither and are not empty.
pub parse_process_ticks-join :
    (pre : Text) (fs : List Text) (user system : ℕ)
    → All IsField fs
    → any (λ c. c == b')') (join space fs) ≡ false
    → get_elem? fs 11 ≡ some (itoa user)
    → get_elem? fs 12 ≡ some (itoa system)
    → user < 2 ^ 64
    → system < 2 ^ 64
    → parse_process_ticks (pre ++ b')' ∷ b' ' ∷ join space fs) ≡ (user + system) % 2 ^ 64
unfolding parse_process_ticks ticks_behind white_fields
parse_process_ticks-join pre fs user system fields plain at_user at_system hu hs =
    let found = behind_paren-append pre (b' ' ∷ join space fs) plain in
    let split_up : white_from [] (b' ' ∷ join space fs) ≡ fs = white_from-join fs fields in
    rw (found, split_up, at_user, at_system, parsed-itoa user hu, parsed-itoa system hs) refl

-- A sum of 64 bits in a loop is the sum, cut once.
abbrev pub sum : List ℕ → ℕ
sum [] = 0
sum (v ∷ vs) = v + sum vs

total_of_lem :
    (room total : ℕ) (vs : List ℕ)
    → total < 2 ^ 64
    → total_of room total vs ≡ (total + sum (take room vs)) % 2 ^ 64
unfolding total_of
total_of_lem zero total [] h = omega arith
total_of_lem (suc room) total [] h = omega arith
total_of_lem zero total (v ∷ vs) h = omega arith
total_of_lem (suc room) total (v ∷ vs) h =
    omega (arith, total_of_lem room (add_word total v) vs (omega arith))

values_of-itoa : (vs : List ℕ) → All (λ v. v < 2 ^ 64) vs → values_of (map itoa vs) ≡ vs
unfolding values_of
values_of-itoa [] h = refl
values_of-itoa (v ∷ vs) (h, hs) = rw (parse_uint-itoa v h, values_of-itoa vs hs) refl

fields-itoa : (vs : List ℕ) → All (λ v. v < 2 ^ 64) vs → All IsField (map itoa vs)
fields-itoa [] h = tt
fields-itoa (v ∷ vs) (h, hs) = (itoa-IsField v h, fields-itoa vs hs)

-- A byte that ends no line.
abbrev EndsNoLine : Text → Type 0
EndsNoLine t = any (λ c. c == b'\n') t ≡ false

first_line-append : (t rest : Text) → EndsNoLine t → first_line (t ++ b'\n' ∷ rest) ≡ t
unfolding first_line
first_line-append [] rest h = refl
first_line-append (c ∷ t) rest h = ground (arith, first_line-append t rest)

digit_no_newline : (s : Text) → all is_digit s ≡ true → EndsNoLine s
unfolding is_digit
digit_no_newline [] h = refl
digit_no_newline (c ∷ s) h = ground (arith, digit_no_newline s)

append-newline : (s t : Text) → EndsNoLine s → EndsNoLine t → EndsNoLine (s ++ t)
append-newline [] t h g = g
append-newline (c ∷ s) t h g = ground (arith, append-newline s t)

join-newline : (vs : List ℕ) → EndsNoLine (join space (map itoa vs))
unfolding join
join-newline [] = refl
join-newline (v ∷ []) = digit_no_newline (itoa v) (itoa-digits v)
join-newline (v ∷ w ∷ vs) =
    append-newline (itoa v) (space ++ join space (itoa w ∷ map itoa vs))
      (digit_no_newline (itoa v) (itoa-digits v)) (join-newline (w ∷ vs))

-- The first line of /proc/stat, with the numbers that the kernel prints.
abbrev pub cpu_line : List ℕ → Text
cpu_line vs = codes "cpu  " ++ join space (map itoa vs)

cpu_fields :
    (vs : List ℕ)
    → All (λ v. v < 2 ^ 64) vs
    → white_fields (cpu_line vs) ≡ codes "cpu" ∷ map itoa vs
unfolding white_fields white_from is_space
cpu_fields vs h = ap (◌∷◌ (codes "cpu")) (white_from-join (map itoa vs) (fields-itoa vs h))

first_eight : (vs : List ℕ) → total_of 8 0 vs ≡ sum (take 8 vs) % 2 ^ 64
first_eight vs = omega (arith, total_of_lem 8 0 vs (omega arith))

ticks_of_lem :
    (a b c idle wait : ℕ) (vs : List ℕ)
    → ticks_of (a ∷ b ∷ c ∷ idle ∷ wait ∷ vs)
      ≡ (sum (take 8 (a ∷ b ∷ c ∷ idle ∷ wait ∷ vs)) % 2 ^ 64, (idle + wait) % 2 ^ 64)
unfolding ticks_of
ticks_of_lem a b c idle wait vs =
    ap (λ n. (n, (idle + wait) % 2 ^ 64)) (first_eight (a ∷ b ∷ c ∷ idle ∷ wait ∷ vs))

cpu_ticks_lem :
    (fields : List Text) (vs : List ℕ)
    → ltb (length fields) 4 ≡ false
    → values_of fields ≡ vs
    → cpu_ticks (codes "cpu" ∷ fields) ≡ ticks_of vs
unfolding cpu_ticks Text-discrete
cpu_ticks_lem fields vs enough read = rw (enough, read) refl

four_fields : (t u v w : Text) (ts : List Text) → ltb (length (t ∷ u ∷ v ∷ w ∷ ts)) 4 ≡ false
four_fields t u v w ts = ground arith

-- From the first line of /proc/stat as the kernel prints it, with five numbers or more of 64 bits,
-- `parse_cpu_stat` reads the sum of the first eight numbers and the sum of the fourth and the fifth, both
-- in 64 bits, whatever lines follow.
pub parse_cpu_stat-line :
    (a b c idle wait : ℕ) (vs : List ℕ) (rest : Text)
    → All (λ v. v < 2 ^ 64) (a ∷ b ∷ c ∷ idle ∷ wait ∷ vs)
    → parse_cpu_stat (cpu_line (a ∷ b ∷ c ∷ idle ∷ wait ∷ vs) ++ b'\n' ∷ rest)
      ≡ (sum (take 8 (a ∷ b ∷ c ∷ idle ∷ wait ∷ vs)) % 2 ^ 64, (idle + wait) % 2 ^ 64)
unfolding parse_cpu_stat
parse_cpu_stat-line a b c idle wait vs rest h =
    let numbers = a ∷ b ∷ c ∷ idle ∷ wait ∷ vs in
    let line = first_line-append (cpu_line numbers) rest (
      append-newline (codes "cpu  ") (join space (map itoa numbers)) refl (join-newline numbers)) in
    ap (λ t. cpu_ticks (white_fields t)) line
    ∙ ap cpu_ticks (cpu_fields numbers h)
    ∙ cpu_ticks_lem (map itoa numbers) numbers
        (four_fields (itoa a) (itoa b) (itoa c) (itoa idle) (map itoa (wait ∷ vs)))
        (values_of-itoa numbers h)
    ∙ ticks_of_lem a b c idle wait vs
