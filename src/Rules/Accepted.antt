-- ===== src/Rules/Accepted.antt =====
-- What a rule is that `Validate` has no problem with.
-- The values of a fixed rule suit its type.
use kaven_dns.Config.{is_upstream}
use kaven_dns.Go.{trim_space, fields}
use kaven_dns.Prelude.{
  Text-discrete, ◌&&◌, leb, text_eq, ltb→le, ◌==◌, length-take, not, is_empty, Bool-cases, ◌⊎◌,
  ◌||◌, take, ◌≤◌, ltb, codes, ◌<◌, if◌then◌else◌, All, ◌++◌, length, [], ◌∷◌, true, false, inl,
  inr, refl, arith, ℕ, ◌≡◌, List, Text, Bool,
}
use kaven_dns.Prelude.Assoc.{concat-Distinct, Distinct}
use kaven_dns.Rules.Defs.{Rule}
use kaven_dns.Rules.Domain.{is_domain, normalize_domain}
use kaven_dns.Rules.Validate.{
  invalid_upstream, ttl_out_of_range, unsupported_mode, no_answer, is_fixed, unsupported_type,
  is_ipv6, is_ipv4, has_type, domain_ok, trim_remark, require, check_values, check_rule,
  check_fixed, validate, collect_parts, collect_domains, check_each, check_domains, Problem,
}

pub record IsAnswer (r : Rule) : Type 0 where
  pub some_value : 0 < length (fields r.value)
  pub suits :
      ((r.type ≡ codes "A") × All (λ v. is_ipv4 v ≡ true) (fields r.value))
      ⊎ ((r.type ≡ codes "AAAA") × All (λ v. is_ipv6 v ≡ true) (fields r.value))
      ⊎ ((r.type ≡ codes "CNAME")
          × (length (fields r.value) ≡ 1)
          × (is_domain (normalize_domain r.value) ≡ true))

pub record IsAccepted (r : Rule) : Type 0 where
  pub some_domain : 0 < length r.domains
  pub few_domains : length r.domains ≤ 500
  pub each_domain : All (λ d. domain_ok d ≡ true) r.domains
  pub type : (r.type ≡ codes "A") ⊎ (r.type ≡ codes "AAAA") ⊎ (r.type ≡ codes "CNAME")
  pub ttl : (1 ≤ r.ttl) × (r.ttl ≤ 86400)
  pub upstream : (is_empty r.upstream ≡ true) ⊎ (is_upstream r.upstream ≡ true)
  pub mode : (r.mode ≡ codes "forward") ⊎ ((r.mode ≡ codes "fixed") × IsAnswer r)

append-eq-nil : {A : Type 0} (xs ys : List A) → xs ++ ys ≡ [] → (xs ≡ []) × (ys ≡ [])
append-eq-nil [] ys h = (refl, h)
append-eq-nil (x ∷ xs) ys h = absurd (cc)

require-eq-nil : (b : Bool) (p : Problem) → require b p ≡ [] → b ≡ true
require-eq-nil true p h = refl
require-eq-nil false p h = cc

check_each_sound : (ds : List Text) → check_each ds ≡ [] → All (λ d. domain_ok d ≡ true) ds
unfolding check_each
check_each_sound [] h = tt
check_each_sound (d ∷ ds) h = ground (arith, check_each_sound ds)

check_domains_sound :
    (ds : List Text)
    → check_domains ds ≡ []
    → (0 < length ds) × (length ds ≤ 500) × All (λ d. domain_ok d ≡ true) ds
unfolding check_domains
check_domains_sound ds h = ground (arith, check_each_sound ds)

module _ (r : Rule) where
  check_values_a :
      (vs : List Text)
      → r.type ≡ codes "A"
      → check_values r vs ≡ []
      → All (λ v. is_ipv4 v ≡ true) vs
  unfolding check_values
  check_values_a [] t h = tt
  check_values_a (v ∷ vs) t h = ground (arith, check_values_a vs t)

  check_values_aaaa :
      (vs : List Text)
      → r.type ≡ codes "AAAA"
      → check_values r vs ≡ []
      → All (λ v. is_ipv6 v ≡ true) vs
  unfolding check_values
  check_values_aaaa [] t h = tt
  check_values_aaaa (v ∷ vs) t h = ground (arith, check_values_aaaa vs t)

  check_fixed_sound :
      (r.type ≡ codes "A") ⊎ (r.type ≡ codes "AAAA") ⊎ (r.type ≡ codes "CNAME")
      → check_fixed r ≡ []
      → IsAnswer r
  unfolding check_fixed
  check_fixed_sound type h =
      let values = fields r.value in
      let (some_value, rest) = append-eq-nil (require (not (length values == 0)) no_answer) _ h in
      let (good, cname) = append-eq-nil (check_values r values) _ rest in
      record {
        some_value = ground (arith, some_value);
        suits = elim type [
          | inl t ↦ inl (t, check_values_a values t good)
          | inr (inl t) ↦ inr (inl (t, check_values_aaaa values t good))
          | inr (inr t) ↦ inr (inr (t, ground (arith, t, cname), ground (arith, t, cname)))
        ];
      }

  check_rule_sound : check_rule r ≡ [] → IsAccepted r
  unfolding check_rule
  check_rule_sound h =
      let (h₁, t₁) = append-eq-nil (check_domains r.domains) _ h in
      let (h₂, t₂) =
        append-eq-nil
          (require
            (has_type r (codes "A") || has_type r (codes "AAAA") || has_type r (codes "CNAME"))
            unsupported_type)
          _ t₁ in
      let (h₃, t₃) =
        append-eq-nil (require (is_fixed r || text_eq r.mode (codes "forward")) unsupported_mode) _
          t₂ in
      let (h₄, t₄) =
        append-eq-nil (require (leb 1 r.ttl && leb r.ttl 86400) ttl_out_of_range) _ t₃ in
      let (h₅, h₆) =
        append-eq-nil (require (is_empty r.upstream || is_upstream r.upstream) invalid_upstream) _
          t₄ in
      let (some_domain, few, each) = check_domains_sound r.domains h₁ in
      let type : (r.type ≡ codes "A") ⊎ (r.type ≡ codes "AAAA") ⊎ (r.type ≡ codes "CNAME") =
        ground (arith, require-eq-nil _ _ h₂) in
      record {
        some_domain = some_domain;
        few_domains = few;
        each_domain = each;
        type = type;
        ttl = ground (arith, require-eq-nil _ _ h₄);
        upstream = ground (arith, require-eq-nil _ _ h₅);
        mode = elim (Text-discrete r.mode (codes "fixed")) [
          | yes m ↦ inr (m, check_fixed_sound type (ground (arith, m, h₆)))
          | no m ↦ inl (ground (arith, m, require-eq-nil _ _ h₃))
        ];
      }

-- The domains that are collected are pairwise distinct.
collect_parts-Distinct :
    (parts domains : List Text) → Distinct domains → Distinct (collect_parts parts domains)
unfolding collect_parts
collect_parts-Distinct [] domains d = d
collect_parts-Distinct (part ∷ parts) domains d = ground (
  arith,
  collect_parts-Distinct parts domains d,
  collect_parts-Distinct parts (domains ++ normalize_domain part ∷ []),
  concat-Distinct (normalize_domain part) domains d,
)

collect_domains-Distinct :
    (raws domains : List Text) → Distinct domains → Distinct (collect_domains raws domains)
unfolding collect_domains
collect_domains-Distinct [] domains d = d
collect_domains-Distinct (raw ∷ raws) domains d =
    collect_domains-Distinct raws (collect_parts (fields raw) domains)
      (collect_parts-Distinct (fields raw) domains d)

length-cut : (n : ℕ) (t : Text) → length (if ltb n (length t) then take n t else t) ≤ n
length-cut n t = elim (Bool-cases (ltb n (length t))) [
  | inl e ↦ rw e (omega (arith, length-take n t))
  | inr e ↦ rw e (ltb→le n (length t) e)
]

trim_remark_bound : (s : Text) → length (trim_remark s) ≤ 200
trim_remark_bound s = length-cut 200 (trim_space s)

-- A rule that `Validate` returns with no problem has between 1 and 500 domains, each valid and none twice, a
-- supported type and mode, a lifetime in range, no upstream or a valid one, a remark of at most 200 bytes, and, if it
-- is fixed, an answer that suits its type.
pub validate-IsAccepted :
    (r : Rule)
    → (validate r).1 ≡ []
    → IsAccepted (validate r).0
      × Distinct (validate r).0.domains
      × (length (validate r).0.remark ≤ 200)
unfolding validate
validate-IsAccepted r h =
    let r' = record r { domains = collect_domains r.domains [] } in
    let accepted = check_rule_sound r' h in
    (
      record {
        some_domain = accepted.some_domain;
        few_domains = accepted.few_domains;
        each_domain = accepted.each_domain;
        type = accepted.type;
        ttl = accepted.ttl;
        upstream = accepted.upstream;
        mode = elim accepted.mode [
          | inl m ↦ inl m
          | inr (m, answer) ↦
              inr (m, record { some_value = answer.some_value; suits = answer.suits })
        ];
      },
      collect_domains-Distinct r.domains [] tt,
      trim_remark_bound r.remark,
    )
