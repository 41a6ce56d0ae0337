-- ===== src/Go/Strings.antt =====
-- Package strings.
use kaven_dns.Prelude.{
  ℕ, ◌+◌, ◌-◌, ◌≡◌, refl, Bool, true, false, not, ◌&&◌, ◌||◌, List, [], ◌∷◌, ◌++◌, map, Text, codes,
  text_eq, Text-discrete, is_empty, leb, ◌==◌, if◌then◌else◌, length, drop,
}

-- `unicode.IsSpace` on ASCII: tab, newline, vertical tab, form feed, return, space.
unfoldable pub is_space : ℕ → Bool
is_space c = (leb 9 c && leb c 13) || c == b' '

unfoldable pub lower : ℕ → ℕ
lower c = if leb b'A' c && leb c b'Z' then c + 32 else c

unfoldable pub to_lower : Text → Text
unfolding lower
to_lower s = map lower s

unfoldable pub upper : ℕ → ℕ
upper c = if leb b'a' c && leb c b'z' then c - 32 else c

unfoldable pub to_upper : Text → Text
unfolding upper
to_upper s = map upper s

unfoldable pub trim_left : Text → Text
unfolding is_space
trim_left [] = []
trim_left (c ∷ s) = if is_space c then trim_left s else c ∷ s

-- Puts a byte in front of a text with no trailing space.
unfoldable pub push_unless_space : ℕ → Text → Text
unfolding is_space
push_unless_space c [] = if is_space c then [] else c ∷ []
push_unless_space c (d ∷ s) = c ∷ d ∷ s

unfoldable pub trim_right : Text → Text
unfolding push_unless_space
trim_right [] = []
trim_right (c ∷ s) = push_unless_space c (trim_right s)

unfoldable pub trim_space : Text → Text
unfolding trim_left trim_right
trim_space s = trim_left (trim_right s)

-- `is_prefix p s` says that `s` begins with `p`.
unfoldable pub is_prefix : Text → Text → Bool
is_prefix [] s = true
is_prefix (c ∷ p) [] = false
is_prefix (c ∷ p) (d ∷ s) = c == d && is_prefix p s

unfoldable pub has_prefix : Text → Text → Bool
unfolding is_prefix
has_prefix s p = is_prefix p s

unfoldable pub has_suffix : Text → Text → Bool
unfolding Text-discrete
has_suffix s t = leb (length t) (length s) && text_eq (drop (length s - length t) s) t

unfoldable pub trim_prefix : Text → Text → Text
unfolding has_prefix
trim_prefix s p = if has_prefix s p then drop (length p) s else s

-- The bytes in front of the last `n`.
abbrev pub drop_last : ℕ → Text → Text
drop_last n [] = []
drop_last n (c ∷ s) = if leb (length s + 1) n then [] else c ∷ drop_last n s

unfoldable pub trim_suffix : Text → Text → Text
unfolding has_suffix
trim_suffix s t = if has_suffix s t then drop_last (length t) s else s

unfoldable pub contains : Text → Text → Bool
unfolding is_prefix
contains [] t = is_empty t
contains (c ∷ s) t = is_prefix t (c ∷ s) || contains s t

-- `Split(s, sep)` at a separator of one byte: the loop with the part read so far.
unfoldable pub split_from : ℕ → Text → Text → List Text
split_from sep cur [] = cur ∷ []
split_from sep cur (c ∷ s) =
    let rest = split_from sep (if c == sep then [] else cur ++ c ∷ []) s in
    if c == sep then cur ∷ rest else rest

unfoldable pub split : Text → ℕ → List Text
unfolding split_from
split s sep = split_from sep [] s

-- The separators of `FieldsFunc` in the rules and the resolver: comma, semicolon, space, newline, tab.
unfoldable pub is_separator : ℕ → Bool
is_separator c = c == b',' || c == b';' || c == b' ' || c == b'\n' || c == b'\t'

-- `FieldsFunc` with that test: the maximal runs of other bytes.
unfoldable pub fields_from : Text → Text → List Text
unfolding is_separator
fields_from cur [] = if is_empty cur then [] else cur ∷ []
fields_from cur (c ∷ s) =
    let rest = fields_from (if is_separator c then [] else cur ++ c ∷ []) s in
    if is_separator c && not (is_empty cur) then cur ∷ rest else rest

unfoldable pub fields : Text → List Text
unfolding fields_from
fields s = fields_from [] s

trim_space_test : trim_space (codes " \ta b\n ") ≡ codes "a b"
unfolding trim_space
trim_space_test = refl

trim_suffix_test : trim_suffix (codes "a.b.") (codes ".") ≡ codes "a.b"
unfolding trim_suffix
trim_suffix_test = refl

contains_test : contains (codes "abcab") (codes "cab") ≡ true
unfolding contains
contains_test = refl

split_test : split (codes "a..b") b'.' ≡ codes "a" ∷ [] ∷ codes "b" ∷ []
unfolding split
split_test = refl

fields_test : fields (codes " a,; b\tc,") ≡ codes "a" ∷ codes "b" ∷ codes "c" ∷ []
unfolding fields
fields_test = refl
