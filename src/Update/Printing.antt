-- ===== src/Update/Printing.antt =====
-- A printed version is read back as its three numbers.
use kaven_dns.Go.{natural, split, trim_prefix, trim_space, itoa, is_space}
use kaven_dns.Go.Decimal.{natural-itoa, itoa-digits, split_from-append, split_from_whole}
use kaven_dns.Go.Strconv.{is_digit}
use kaven_dns.Go.Trim.{trim_space_plain}
use kaven_dns.Prelude.{
  none, some, [], ◌∷◌, true, false, inl, inr, refl, arith, ℕ, ◌≡◌, List, Text, Bool, Option, sym,
  ltb→lt, ltb, ◌||◌, ◌==◌, lt→ltb, Bool-cases, ◌^◌, ◌++◌, ◌&&◌, codes, any, ◌∙◌, ◌<◌, leb, ap, all,
}
use kaven_dns.Update.Defs.{
  Parts, int_of, three_parts, three_read, printed, parts_of, print, parse_stable,
}
use mathlib.Core.Path.{subst}

abbrev pub IsInts : Parts → Type 0
IsInts (i, j, k) = (i < 2 ^ 63) × (j < 2 ^ 63) × (k < 2 ^ 63)

int_of_fits : (n : ℕ) → n < 2 ^ 63 → int_of n ≡ n
int_of_fits n h = ground (arith, lt→ltb n (2 ^ 63) h)

int_of_bound : (n : ℕ) → int_of n < 2 ^ 63
int_of_bound n = elim (Bool-cases (ltb n (2 ^ 63))) [
  | inl h ↦ rw h (ltb→lt n (2 ^ 63) h)
  | inr h ↦ rw h (omega arith)
]

three_read-IsInts : (x y z : Option ℕ) (p : Parts) → three_read x y z ≡ some p → IsInts p
three_read-IsInts (some i) (some j) (some k) p h =
    subst IsInts (cc h) (int_of_bound i, int_of_bound j, int_of_bound k)
three_read-IsInts none y z p h = absurd (cc h)
three_read-IsInts (some i) none z p h = absurd (cc h)
three_read-IsInts (some i) (some j) none p h = absurd (cc h)

parts_of-IsInts : (ts : List Text) (p : Parts) → parts_of ts ≡ some p → IsInts p
unfolding parts_of three_parts
parts_of-IsInts (x ∷ y ∷ z ∷ []) p h = three_read-IsInts (natural x) (natural y) (natural z) p h
parts_of-IsInts [] p h = absurd (cc h)
parts_of-IsInts (x ∷ []) p h = absurd (cc h)
parts_of-IsInts (x ∷ y ∷ []) p h = absurd (cc h)
parts_of-IsInts (x ∷ y ∷ z ∷ w ∷ more) p h = absurd (cc h)

printed-parts :
    (o : Option Parts) (v : Text) (p : Parts)
    → printed o ≡ some (v, p)
    → (o ≡ some p) × (v ≡ print p)
printed-parts none v p h = absurd (cc h)
printed-parts (some q) v p h =
    let parts : q ≡ p = cc h in
    let text : print q ≡ v = cc h in (ap some parts, sym text ∙ ap print parts)

abbrev read_fields : Text → List Text
read_fields t = split (trim_prefix (trim_space t) (codes "v")) b'.'

-- What is read as a version is printed from three ints.
pub parse_stable-parts :
    (t v : Text) (p : Parts) → parse_stable t ≡ some (v, p) → IsInts p × (v ≡ print p)
unfolding parse_stable
parse_stable-parts t v p h =
    let (read, same) = printed-parts (parts_of (read_fields t)) v p h in
    (parts_of-IsInts (read_fields t) p read, same)

digits_plain : (s : Text) → all is_digit s ≡ true → any (λ c. c == b'.') s ≡ false
unfolding is_digit
digits_plain [] h = refl
digits_plain (c ∷ s) h = ground (arith, digits_plain s)

split-print : (i j k : ℕ) → split (print (i, j, k)) b'.' ≡ itoa i ∷ itoa j ∷ itoa k ∷ []
unfolding split print
split-print i j k =
    split_from-append b'.' [] (itoa i) (itoa j ++ b'.' ∷ itoa k)
      (digits_plain (itoa i) (itoa-digits i))
    ∙ ap (◌∷◌ (itoa i))
        (split_from-append b'.' [] (itoa j) (itoa k) (digits_plain (itoa j) (itoa-digits j)))
    ∙ ap (λ t. itoa i ∷ itoa j ∷ t)
        (split_from_whole b'.' [] (itoa k) (digits_plain (itoa k) (itoa-digits k)))

-- A byte that stands in a version.
abbrev version_byte : ℕ → Bool
version_byte c = (leb b'0' c && leb c b'9') || c == b'.'

version_bytes_append :
    (s t : Text)
    → all is_digit s ≡ true
    → all version_byte t ≡ true
    → all version_byte (s ++ t) ≡ true
unfolding is_digit
version_bytes_append [] t h g = g
version_bytes_append (c ∷ s) t h g = ground (arith, version_bytes_append s t)

version_bytes_digits : (s : Text) → all is_digit s ≡ true → all version_byte s ≡ true
unfolding is_digit
version_bytes_digits [] h = refl
version_bytes_digits (c ∷ s) h = ground (arith, version_bytes_digits s)

print-bytes : (p : Parts) → all version_byte (print p) ≡ true
unfolding print
print-bytes (i, j, k) =
    version_bytes_append (itoa i) (b'.' ∷ (itoa j ++ b'.' ∷ itoa k)) (itoa-digits i) (
      version_bytes_append (itoa j) (b'.' ∷ itoa k) (itoa-digits j)
        (version_bytes_digits (itoa k) (itoa-digits k)))

no_space : (s : Text) → all version_byte s ≡ true → any is_space s ≡ false
unfolding is_space
no_space [] h = refl
no_space (c ∷ s) h = ground (arith, no_space s)

no_prefix : (s : Text) → all version_byte s ≡ true → trim_prefix s (codes "v") ≡ s
unfolding trim_prefix
no_prefix [] h = refl
no_prefix (c ∷ s) h = ground arith

three_parts-itoa :
    (i j k : ℕ) → IsInts (i, j, k) → three_parts (itoa i) (itoa j) (itoa k) ≡ some (i, j, k)
unfolding three_parts
three_parts-itoa i j k (hi, hj, hk) =
    rw
      (
        natural-itoa i (omega arith),
        natural-itoa j (omega arith),
        natural-itoa k (omega arith),
        int_of_fits i hi,
        int_of_fits j hj,
        int_of_fits k hk,
      )
      refl

parts_of-print : (p : Parts) → IsInts p → parts_of (split (print p) b'.') ≡ some p
unfolding parts_of
parts_of-print (i, j, k) h = rw (split-print i j k) (three_parts-itoa i j k h)

-- A printed version of three ints is read back as these, and printed as itself.
pub parse_stable-print : (p : Parts) → IsInts p → parse_stable (print p) ≡ some (print p, p)
unfolding parse_stable
parse_stable-print p h =
    let bytes = print-bytes p in
    rw (trim_space_plain (print p) (no_space (print p) bytes), no_prefix (print p) bytes)
      (ap printed (parts_of-print p h))
