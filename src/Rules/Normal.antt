-- ===== src/Rules/Normal.antt =====
-- A domain that `domainRE` accepts is in normal form, so that rules are read back as they were saved.
use kaven_dns.Go.{to_lower, trim_suffix, trim_prefix, split, split_from, has_suffix, is_space}
use kaven_dns.Go.Strings.{lower, is_prefix, has_prefix}
use kaven_dns.Go.Trim.{trim_space_plain}
use kaven_dns.Prelude.{
  [], ◌∷◌, true, false, inl, inr, refl, arith, ℕ, ◌≡◌, List, Text, Bool, is_empty, not,
  if◌then◌else◌, ◌<◌, map, All, leb, take, ap, ◌∙◌, take-append-drop, sym, ◌-◌, length,
  append_assoc, drop, Text-discrete, ◌&&◌, text_eq, append-nil, Bool-cases, ◌++◌, any, ◌||◌, ◌==◌,
  all,
}
use kaven_dns.Rules.Accepted.{IsAccepted}
use kaven_dns.Rules.Accepting.{AllAccepted}
use kaven_dns.Rules.Defs.{Rule, migrate, is_nil}
use kaven_dns.Rules.Domain.{
  normalize_domain, is_domain, is_label, is_label_rest, is_alnum, dot, wildcard,
}
use kaven_dns.Rules.Validate.{domain_ok}
use mathlib.Core.Path.{subst}

-- A byte of a domain.
abbrev domain_byte : ℕ → Bool
domain_byte c = is_alnum c || c == b'-' || c == b'.' || c == b'*'

label_rest_bytes : (s : Text) → is_label_rest s ≡ true → all domain_byte s ≡ true
unfolding is_label_rest
label_rest_bytes [] h = refl
label_rest_bytes (c ∷ []) h = ground arith
label_rest_bytes (c ∷ d ∷ s) h = ground (arith, label_rest_bytes (d ∷ s))

label_bytes : (s : Text) → is_label s ≡ true → all domain_byte s ≡ true
unfolding is_label
label_bytes [] h = refl
label_bytes (c ∷ s) h = ground (arith, label_rest_bytes s)

bytes_append :
    (s t : Text)
    → all domain_byte s ≡ true
    → all domain_byte t ≡ true
    → all domain_byte (s ++ t) ≡ true
bytes_append [] t h g = g
bytes_append (c ∷ s) t h g = ground (arith, bytes_append s t)

and_both : (a b : Bool) → a && b ≡ true → (a ≡ true) × (b ≡ true)
and_both true b h = (refl, h)
and_both false b h = absurd (cc h)

first_label : (t : Text) (ts : List Text) → all is_label (t ∷ ts) ≡ true → is_label t ≡ true
first_label t ts h = (and_both (is_label t) (all is_label ts) h).0

dot_byte : (c : ℕ) → (c == b'.') ≡ true → domain_byte c && true ≡ true
dot_byte c h = ground arith

split_bytes :
    (cur s : Text) → all is_label (split_from b'.' cur s) ≡ true → all domain_byte (cur ++ s) ≡ true
unfolding split_from
split_bytes cur [] h = rw (append-nil cur) (label_bytes cur (first_label cur [] h))
split_bytes cur (c ∷ s) h = elim (Bool-cases (c == b'.')) [
  | inl e ↦
      let h' = rw e at h in
      let (first, rest) = and_both (is_label cur) (all is_label (split_from b'.' [] s)) h' in
      bytes_append cur (c ∷ s) (label_bytes cur first) (rw (split_bytes [] s rest) (dot_byte c e))
  | inr e ↦
      let h' = rw e at h in
      subst (λ t. all domain_byte t ≡ true) (append_assoc cur (c ∷ []) s)
        (split_bytes (cur ++ c ∷ []) s h')
]

-- Whether a text ends in a dot.
ends_in_dot : Text → Bool
ends_in_dot [] = false
ends_in_dot (c ∷ []) = c == b'.'
ends_in_dot (c ∷ d ∷ s) = ends_in_dot (d ∷ s)

split_no_dot : (cur s : Text) → all is_label (split_from b'.' cur s) ≡ true → ends_in_dot s ≡ false
unfolding split_from is_label ends_in_dot
split_no_dot cur [] h = refl
split_no_dot cur (c ∷ []) h = ground arith
split_no_dot cur (c ∷ d ∷ s) h = elim (Bool-cases (c == b'.')) [
  | inl e ↦
      let h' = rw e at h in
      split_no_dot [] (d ∷ s)
        (and_both (is_label cur) (all is_label (split_from b'.' [] (d ∷ s))) h').1
  | inr e ↦ split_no_dot (cur ++ c ∷ []) (d ∷ s) (rw e at h)
]

ends_in_dot-concat : (s : Text) → ends_in_dot (s ++ dot) ≡ true
unfolding ends_in_dot
ends_in_dot-concat [] = refl
ends_in_dot-concat (c ∷ []) = refl
ends_in_dot-concat (c ∷ d ∷ s) = ends_in_dot-concat (d ∷ s)

same_text : (s t : Text) → text_eq s t ≡ true → s ≡ t
same_text s t h =
    elim (Text-discrete s t) as (λ x. (elim x [ yes _ ↦ true | no _ ↦ false ]) ≡ true → s ≡ t) [
      | yes e ↦ λ _. e
      | no _ ↦ λ g. absurd (cc g)
    ]
      h

and_false : (b : Bool) → b && false ≡ false
and_false true = refl
and_false false = refl

suffix_false : (s : Text) → ends_in_dot s ≡ false → has_suffix s dot ≡ false
unfolding has_suffix
suffix_false s h = elim (Bool-cases (text_eq (drop (length s - 1) s) dot)) [
  | inl e ↦
      let last = same_text (drop (length s - 1) s) dot e in
      let whole =
        sym (take-append-drop (length s - 1) s) ∙ ap (λ t. take (length s - 1) s ++ t) last in
      absurd (cc (ap ends_in_dot whole ∙ ends_in_dot-concat (take (length s - 1) s), h))
  | inr e ↦ rw e (and_false (leb 1 (length s)))
]

starred : (s : Text) → has_prefix s wildcard ≡ true → s ≡ b'*' ∷ b'.' ∷ drop 2 s
unfolding has_prefix is_prefix
starred [] h = absurd (cc h)
starred (c ∷ []) h = ground arith
starred (c ∷ d ∷ s) h =
    let star : c ≡ b'*' = ground arith in let point : d ≡ b'.' = ground arith in cc (star, point)

starred_no_dot :
    (t : Text) → all is_label (split_from b'.' [] t) ≡ true → ends_in_dot (b'*' ∷ b'.' ∷ t) ≡ false
unfolding ends_in_dot split_from is_label
starred_no_dot [] h = absurd (cc h)
starred_no_dot (c ∷ t) h = split_no_dot [] (c ∷ t) h

-- An accepted domain: its bytes, and that it does not end in a dot.
domain_parts :
    (s : Text) → is_domain s ≡ true → (all domain_byte s ≡ true) × (ends_in_dot s ≡ false)
unfolding is_domain trim_prefix split
domain_parts s h = elim (Bool-cases (has_prefix s wildcard)) [
  | inl e ↦
      let h' : all is_label (split_from b'.' [] (drop 2 s)) ≡ true = rw e at h in
      subst (λ t. (all domain_byte t ≡ true) × (ends_in_dot t ≡ false)) (sym (starred s e))
        (split_bytes [] (drop 2 s) h', starred_no_dot (drop 2 s) h')
  | inr e ↦ let h' = rw e at h in (split_bytes [] s h', split_no_dot [] s h')
]

lower_plain : (s : Text) → all domain_byte s ≡ true → to_lower s ≡ s
unfolding to_lower lower
lower_plain [] h = refl
lower_plain (c ∷ s) h = ground (arith, lower_plain s)

no_space : (s : Text) → all domain_byte s ≡ true → any is_space s ≡ false
unfolding is_space
no_space [] h = refl
no_space (c ∷ s) h = ground (arith, no_space s)

unsuffixed : (s : Text) → ends_in_dot s ≡ false → trim_suffix s dot ≡ s
unfolding trim_suffix
unsuffixed s h = rw (suffix_false s h) refl

pub normalize_domain_accepted : (d : Text) → is_domain d ≡ true → normalize_domain d ≡ d
unfolding normalize_domain
normalize_domain_accepted d h =
    let (bytes, no_dot) = domain_parts d h in
    ap (λ t. trim_suffix (to_lower t) dot) (trim_space_plain d (no_space d bytes))
    ∙ ap (λ t. trim_suffix t dot) (lower_plain d bytes)
    ∙ unsuffixed d no_dot

normalized_all : (ds : List Text) → All (λ d. domain_ok d ≡ true) ds → map normalize_domain ds ≡ ds
normalized_all [] h = refl
normalized_all (d ∷ ds) (h, hs) =
    let ok = (and_both (leb (length d) 253) (is_domain d) h).1 in
    cc (normalize_domain_accepted d ok, normalized_all ds hs)

-- A rule without the one domain of an old file.
abbrev pub current : Rule → Rule
current r = record r { domain = [] }

listed :
    (ds : List Text) (domain : Text)
    → 0 < length ds
    → (if is_nil ds && not (is_empty domain) then domain ∷ [] else ds) ≡ ds
listed [] domain h = absurd (omega arith)
listed (d ∷ ds) domain h = refl

migrate_accepted : (r : Rule) → IsAccepted r → migrate r ≡ current r
unfolding migrate
migrate_accepted r a =
    ap (λ ds. record r { domains = ds; domain = [] })
      (ap (map normalize_domain) (listed r.domains r.domain a.some_domain)
        ∙ normalized_all r.domains a.each_domain)

pub migrate_all : (rs : List Rule) → AllAccepted rs → map migrate rs ≡ map current rs
migrate_all [] a = refl
migrate_all (r ∷ rs) (a, all) = cc (migrate_accepted r a, migrate_all rs all)
