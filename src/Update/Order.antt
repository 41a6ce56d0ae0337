-- ===== src/Update/Order.antt =====
-- The comparison of versions is an order.
use kaven_dns.Prelude.{
  none, some, zero, suc, false, inl, inr, refl, pos, negsuc, arith, ℕ, ◌≡◌, Text, Option, sym, ◌∙◌,
  ltb→le, ltb, ap, Bool-cases, ℤ,
}
use kaven_dns.Update.Defs.{
  compare_read, parse_stable, compare_part, Parts, compare_versions, compare_parts,
}

abbrev pub negate : ℤ → ℤ
negate (pos zero) = pos 0
negate (pos (suc n)) = negsuc n
negate (negsuc n) = pos (suc n)

compare_part-swap :
    (m n : ℕ) (next : ℤ) → compare_part n m (negate next) ≡ negate (compare_part m n next)
compare_part-swap m n next = elim (Bool-cases (ltb n m)) [
  | inl h ↦ let other : ltb m n ≡ false = ground arith in rw (h, other) refl
  | inr h ↦ elim (Bool-cases (ltb m n)) [ inl k ↦ rw (h, k) refl | inr k ↦ rw (h, k) refl ]
]

compare_parts-swap : (m n : Parts) → compare_parts n m ≡ negate (compare_parts m n)
unfolding compare_parts
compare_parts-swap (i, j, k) (i', j', k') =
    let inner = compare_part-swap k k' (pos 0) in
    ap (λ t. compare_part i' i (compare_part j' j t)) inner
    ∙ ap (compare_part i' i) (compare_part-swap j j' _)
    ∙ compare_part-swap i i' _

abbrev pub negate_some : Option ℤ → Option ℤ
negate_some none = none
negate_some (some c) = some (negate c)

compare_read-swap :
    (left right : Option (Text × Parts))
    → compare_read right left ≡ negate_some (compare_read left right)
unfolding compare_read
compare_read-swap none none = refl
compare_read-swap none (some n) = refl
compare_read-swap (some m) none = refl
compare_read-swap (some (_, m)) (some (_, n)) = ap some (compare_parts-swap m n)

-- Comparing two versions the other way round negates the outcome, and is an error in the same cases.
pub compare_versions-swap :
    (left right : Text) → compare_versions right left ≡ negate_some (compare_versions left right)
unfolding compare_versions
compare_versions-swap left right = compare_read-swap (parse_stable left) (parse_stable right)

same_part : (m n : ℕ) (next : ℤ) → compare_part m n next ≡ pos 0 → (m ≡ n) × (next ≡ pos 0)
same_part m n next h = elim (Bool-cases (ltb n m)) [
  | inl a ↦ absurd (cc (rw a at h))
  | inr a ↦ elim (Bool-cases (ltb m n)) [
    | inl b ↦ absurd (cc (rw (a, b) at h))
    | inr b ↦ (omega (arith, ltb→le _ _ a, ltb→le _ _ b), rw (a, b) at h)
  ]
]

compare_parts_same : (m n : Parts) → compare_parts m n ≡ pos 0 → m ≡ n
unfolding compare_parts
compare_parts_same (i, j, k) (i', j', k') h =
    let (first, rest) = same_part i i' (compare_part j j' (compare_part k k' (pos 0))) h in
    let (second, rest') = same_part j j' (compare_part k k' (pos 0)) rest in
    let (third, _) = same_part k k' (pos 0) rest' in cc (first, second, third)

compare_read_same :
    (left right : Option (Text × Parts))
    → compare_read left right ≡ some (pos 0)
    → (t u : Text) × (m : Parts) × (left ≡ some (t, m)) × (right ≡ some (u, m))
unfolding compare_read
compare_read_same none right h = absurd (cc h)
compare_read_same (some left) none h = absurd (cc h)
compare_read_same (some (t, m)) (some (u, n)) h =
    (t, u, m, refl, ap (λ x. some (u, x)) (sym (compare_parts_same m n (cc h))))

-- Two versions compare as equal only if they are read as the same three numbers.
pub compare_versions_same :
    (left right : Text)
    → compare_versions left right ≡ some (pos 0)
    → (t u : Text) × (m : Parts) × (parse_stable left ≡ some (t, m))
      × (parse_stable right ≡ some (u, m))
unfolding compare_versions
compare_versions_same left right h = compare_read_same (parse_stable left) (parse_stable right) h
