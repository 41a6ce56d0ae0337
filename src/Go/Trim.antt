-- ===== src/Go/Trim.antt =====
-- To trim a trimmed text changes nothing.
use kaven_dns.Go.Strings.{trim_left, trim_right, push_unless_space, is_space, trim_space}
use kaven_dns.Prelude.{[], ◌∷◌, false, refl, arith, ℕ, ◌≡◌, Text, any, ◌∙◌, if◌then◌else◌, ap}

trim_left_idem : (s : Text) → trim_left (trim_left s) ≡ trim_left s
unfolding trim_left
trim_left_idem [] = refl
trim_left_idem (c ∷ s) = ground (arith, trim_left_idem s)

trim_right_push :
    (c : ℕ) (s : Text)
    → trim_right s ≡ s
    → trim_right (push_unless_space c s) ≡ push_unless_space c s
unfolding trim_right
trim_right_push c [] h = ground arith
trim_right_push c (d ∷ s) h = rw h refl

trim_right_idem : (s : Text) → trim_right (trim_right s) ≡ trim_right s
unfolding trim_right
trim_right_idem [] = refl
trim_right_idem (c ∷ s) = trim_right_push c (trim_right s) (trim_right_idem s)

trim_left_push :
    (c : ℕ) (s : Text)
    → trim_left (push_unless_space c s)
      ≡ (if is_space c then trim_left s else push_unless_space c s)
unfolding trim_left push_unless_space
trim_left_push c [] = ground arith
trim_left_push c (d ∷ s) = ground arith

trim_right-trim_left : (s : Text) → trim_right (trim_left s) ≡ trim_left (trim_right s)
unfolding trim_left trim_right
trim_right-trim_left [] = refl
trim_right-trim_left (c ∷ s) =
    ground (arith, trim_right-trim_left s, trim_left_push c (trim_right s))

pub trim_space_idem : (s : Text) → trim_space (trim_space s) ≡ trim_space s
unfolding trim_space
trim_space_idem s =
    ap trim_left (trim_right-trim_left (trim_right s) ∙ ap trim_left (trim_right_idem s))
    ∙ trim_left_idem (trim_right s)

trim_right_plain : (s : Text) → any is_space s ≡ false → trim_right s ≡ s
unfolding trim_right push_unless_space
trim_right_plain [] h = refl
trim_right_plain (c ∷ []) h = ground arith
trim_right_plain (c ∷ d ∷ s) h = ground (arith, trim_right_plain (d ∷ s))

trim_left_plain : (s : Text) → any is_space s ≡ false → trim_left s ≡ s
unfolding trim_left
trim_left_plain [] h = refl
trim_left_plain (c ∷ s) h = ground arith

-- A text without spaces has nothing to trim.
pub trim_space_plain : (s : Text) → any is_space s ≡ false → trim_space s ≡ s
unfolding trim_space
trim_space_plain s h = rw (trim_right_plain s h) (trim_left_plain s h)
