-- ===== src/Rules/Patterns.antt =====
-- What a pattern matches, and which of two patterns has the higher score.
use kaven_dns.Go.{split, trim_prefix, has_prefix, split_from, has_suffix}
use kaven_dns.Prelude.{
  Text-discrete, ◌||◌, ◌<◌, text_eq, [], ◌∷◌, true, false, inl, inr, refl, arith, ℕ, ◌≡◌, Text,
  take-append-drop, ◌⊎◌, take, length-append, ◌-◌, ◌+◌, ◌↔◌, length, ◌++◌, drop,
}
use kaven_dns.Rules.Domain.{pattern_score, wildcard, match_domain}

drop-append : (p t : Text) → drop (length p) (p ++ t) ≡ t
drop-append [] t = refl
drop-append (c ∷ p) t = drop-append p t

has_suffix_sound : (s t : Text) → has_suffix s t ≡ true → (p : Text) × (s ≡ p ++ t)
unfolding has_suffix
has_suffix_sound s t h =
    let n = length s - length t in (take n s, ground (arith, h, take-append-drop n s))

has_suffix-append : (p t : Text) → has_suffix (p ++ t) t ≡ true
unfolding has_suffix
has_suffix-append p t =
    let fits : length (p ++ t) - length t ≡ length p = omega (arith, length-append p t) in
    ground (arith, fits, length-append p t, drop-append p t)

-- The domain is a proper subdomain: labels and a dot in front of the parent.
abbrev pub IsBelow : Text → Text → Type 0
IsBelow parent domain = (labels : Text) × (domain ≡ labels ++ b'.' ∷ parent)

IsBelow-iff :
    (parent domain : Text) → (has_suffix domain (b'.' ∷ parent) ≡ true) ↔ IsBelow parent domain
IsBelow-iff parent domain =
    (has_suffix_sound domain (b'.' ∷ parent), λ b. rw b.1 (has_suffix-append b.0 (b'.' ∷ parent)))

match_plain :
    (pattern domain : Text)
    → has_prefix pattern wildcard ≡ false
    → match_domain pattern domain ≡ text_eq domain pattern || has_suffix domain (b'.' ∷ pattern)
unfolding match_domain
match_plain pattern domain h = rw h refl

not_below_self : (s : Text) → has_suffix s (b'.' ∷ s) ≡ false
unfolding has_suffix
not_below_self s = ground arith

-- A pattern with no `*.` matches the domain that it spells and every domain below that one.
pub match_domain-plain :
    (pattern domain : Text)
    → has_prefix pattern wildcard ≡ false
    → (match_domain pattern domain ≡ true) ↔ ((domain ≡ pattern) ⊎ IsBelow pattern domain)
match_domain-plain pattern domain h =
    rw (match_plain pattern domain h) (sound (Text-discrete domain pattern), complete)
  where
    sound :
        (e : Dec (domain ≡ pattern))
        → (text_eq domain pattern || has_suffix domain (b'.' ∷ pattern)) ≡ true
        → (domain ≡ pattern) ⊎ IsBelow pattern domain
    sound (yes e) t = inl e
    sound (no e) t = inr ((IsBelow-iff pattern domain).0 (ground arith))

    complete :
        (domain ≡ pattern) ⊎ IsBelow pattern domain
        → (text_eq domain pattern || has_suffix domain (b'.' ∷ pattern)) ≡ true
    complete (inl e) = ground (arith, e)
    complete (inr b) = ground (arith, (IsBelow-iff pattern domain).1 b)

-- A pattern `*.parent` matches every domain below the parent, and not the parent itself.
pub match_domain-wildcard :
    (parent domain : Text)
    → ((match_domain (wildcard ++ parent) domain ≡ true) ↔ IsBelow parent domain)
      × (match_domain (wildcard ++ parent) parent ≡ false)
unfolding match_domain has_prefix trim_prefix
match_domain-wildcard parent domain = (IsBelow-iff parent domain, not_below_self parent)

length-split_from :
    (cur s q : Text)
    → length (split_from b'.' cur (s ++ b'.' ∷ q))
      ≡ length (split_from b'.' cur s) + length (split_from b'.' [] q)
unfolding split_from
length-split_from cur [] q = ground arith
length-split_from cur (c ∷ s) q =
    ground (arith, length-split_from [] s q, length-split_from (cur ++ c ∷ []) s q)

split-pos : (cur s : Text) → 0 < length (split_from b'.' cur s)
unfolding split_from
split-pos cur [] = omega arith
split-pos cur (c ∷ s) = ground (arith, split-pos [] s, split-pos (cur ++ c ∷ []) s)

-- How many labels a text has.
abbrev pub labels : Text → ℕ
labels s = length (split s b'.')

labels-below : (s q : Text) → labels (s ++ b'.' ∷ q) ≡ labels s + labels q
unfolding split
labels-below s q = length-split_from [] s q

-- More labels win: whatever its kind, a pattern whose domain lies below that of another has a higher score. With
-- the same domain the plain pattern has a higher score than the wildcard.
pub pattern_score_order :
    (s q : Text)
    → has_prefix q wildcard ≡ false
    → has_prefix (s ++ b'.' ∷ q) wildcard ≡ false
    → (pattern_score (wildcard ++ q) < pattern_score q)
      × (pattern_score q < pattern_score (wildcard ++ s ++ b'.' ∷ q))
      × (pattern_score q < pattern_score (s ++ b'.' ∷ q))
unfolding pattern_score has_prefix trim_prefix
pattern_score_order s q h k =
    let more = labels-below s q in
    let pos_labels : 0 < labels s = unfold split in split-pos [] s in
    (ground (arith, h), ground (arith, h, more, pos_labels), ground (arith, h, k, more, pos_labels))
