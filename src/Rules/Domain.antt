-- ===== src/Rules/Domain.antt =====
-- Domains and patterns: `NormalizeDomain`, `matchDomain`, `patternScore` and `domainRE`.
use kaven_dns.Go.{trim_space, trim_prefix, has_suffix, to_lower, split, has_prefix, trim_suffix}
use kaven_dns.Prelude.{
  ◌+◌, text_eq, ◌++◌, ◌*◌, ◌==◌, length, ◌||◌, ◌&&◌, leb, if◌then◌else◌, all, [], ◌∷◌, true, false,
  ℕ, Text, Bool,
}

abbrev pub dot : Text
dot = b'.' ∷ []

-- `*.`, with which a wildcard begins.
abbrev pub wildcard : Text
wildcard = b'*' ∷ b'.' ∷ []

unfoldable pub normalize_domain : Text → Text
normalize_domain value = trim_suffix (to_lower (trim_space value)) dot

unfoldable pub match_domain : Text → Text → Bool
match_domain pattern domain =
    if has_prefix pattern wildcard
    then has_suffix domain (dot ++ trim_prefix pattern wildcard)
    else text_eq domain pattern || has_suffix domain (dot ++ pattern)

unfoldable pub pattern_score : Text → ℕ
pattern_score pattern =
    if has_prefix pattern wildcard
    then length (split (trim_prefix pattern wildcard) b'.') * 10 + 0
    else length (split pattern b'.') * 10 + 1

-- `[a-z0-9]`.
abbrev pub is_alnum : ℕ → Bool
is_alnum c = (leb b'a' c && leb c b'z') || (leb b'0' c && leb c b'9')

-- What may follow the first byte of a label: any of `[a-z0-9-]`, and `[a-z0-9]` at the end.
unfoldable pub is_label_rest : Text → Bool
is_label_rest [] = true
is_label_rest (c ∷ []) = is_alnum c
is_label_rest (c ∷ d ∷ s) = (is_alnum c || c == b'-') && is_label_rest (d ∷ s)

-- `[a-z0-9]([a-z0-9-]{0,61}[a-z0-9])?`.
unfoldable pub is_label : Text → Bool
unfolding is_label_rest
is_label [] = false
is_label (c ∷ s) = is_alnum c && leb (length s) 62 && is_label_rest s

-- `domainRE`: an optional `*.`, and labels joined by dots.
unfoldable pub is_domain : Text → Bool
unfolding is_label
is_domain s = all is_label (split (trim_prefix s wildcard) b'.')
