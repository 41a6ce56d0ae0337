-- ===== src/Resolver/Hits.antt =====
-- What a fixed rule answers, how long an answer is kept, and that it is answered from the cache next.
use kaven_dns.Cache.Aging.{IsAged, IsLeft, AreCapped, aged-IsAged}
use kaven_dns.Cache.Invariant.{IsValid}
use kaven_dns.Cache.Lru.{get-ideal}
use kaven_dns.Cache.Reads.{get-set-aged}
use kaven_dns.Config.{Config}
use kaven_dns.Dns.{rcode_success, class_inet, Rr}
use kaven_dns.Prelude.{
  none, some, [], ◌∷◌, true, inl, inr, refl, pos, arith, ℕ, ◌≡◌, List, Text, Option, keep, ◌^◌,
  codes, ap, ltb→le, ltb→lt, lt→ltb, ltb_ℤ, ◌∙◌, Bool-cases, ◌<◌, not, ◌&&◌, ◌==◌, ◌*◌, ◌+◌, ◌⊎◌,
  ◌≤ℤ◌, ltb, ℤ, if◌then◌else◌, All-append, ◌≤◌, All,
}
use kaven_dns.Resolver.Defs.{
  label, seconds, Resolved, remember, kept, cached, resolve_upstream, is_nil, forward, forwarded,
  to_uint32, min_ℤ, chosen_upstreams, max_ℤ, cache_key, cache_ttl, least_ttl, address_records,
  address_record,
}
use kaven_dns.Resolver.World.{Message, World}
use kaven_dns.Rules.{Rule, Match}
use kaven_dns.Cache

address_record-All :
    (name : Text) (rule : Rule) (value : Text)
    → All
        (λ rr. (rr.name ≡ name) × (rr.ttl ≡ rule.ttl) × (rr.class ≡ class_inet))
        (address_record name rule value)
unfolding address_record
address_record-All name rule value = ground arith

-- The address records of a fixed rule bear the name that was asked for, the time to live of the rule
-- and the class IN.
pub address_records-All :
    (name : Text) (rule : Rule) (values : List Text)
    → All
        (λ rr. (rr.name ≡ name) × (rr.ttl ≡ rule.ttl) × (rr.class ≡ class_inet))
        (address_records name rule values)
unfolding address_records
address_records-All name rule [] = tt
address_records-All name rule (v ∷ vs) =
    All-append _ (address_record name rule v) (address_records name rule vs)
      (address_record-All name rule v) (address_records-All name rule vs)

least_ttl-le : (n : ℕ) (rrs : List Rr) → least_ttl n rrs ≤ n
unfolding least_ttl
least_ttl-le n [] = omega arith
least_ttl-le n (rr ∷ rrs) = ground (arith, least_ttl-le n rrs, least_ttl-le rr.ttl rrs)

least_ttl-All : (n : ℕ) (rrs : List Rr) → All (λ rr. least_ttl n rrs ≤ rr.ttl) rrs
unfolding least_ttl
least_ttl-All n [] = tt
least_ttl-All n (rr ∷ rrs) = (
  ground (arith, least_ttl-le n rrs, least_ttl-le rr.ttl rrs),
  least_ttl-All (if ltb rr.ttl n then rr.ttl else n) rrs,
)

no_longer :
    (ttl : ℤ) (n : ℕ) (rrs : List Rr)
    → ttl ≤ℤ pos n
    → All (λ rr. n ≤ rr.ttl) rrs
    → All (λ rr. ttl ≤ℤ pos rr.ttl) rrs
no_longer ttl n [] h a = tt
no_longer ttl n (rr ∷ rrs) h (le, a) = (omega arith, no_longer ttl n rrs h a)

min-cases : (m n : ℤ) → ((min_ℤ m n ≡ n) × (n ≤ℤ m)) ⊎ ((min_ℤ m n ≡ m) × (m ≤ℤ n))
min-cases m n = elim (Bool-cases (ltb_ℤ n m)) [
  | inl h ↦ inl (rw h refl, omega (arith, ltb→lt _ _ h))
  | inr h ↦ inr (rw h refl, omega (arith, ltb→le _ _ h))
]

max-cases : (m n : ℤ) → ((max_ℤ m n ≡ n) × (m ≤ℤ n)) ⊎ ((max_ℤ m n ≡ m) × (n ≤ℤ m))
max-cases m n = elim (Bool-cases (ltb_ℤ m n)) [
  | inl h ↦ inl (rw h refl, omega (arith, ltb→lt _ _ h))
  | inr h ↦ inr (rw h refl, omega (arith, ltb→le _ _ h))
]

clamped :
    (low high : ℤ) (n : ℕ)
    → low ≤ℤ high
    → (low ≤ℤ max_ℤ low (min_ℤ high (pos n)))
      × (max_ℤ low (min_ℤ high (pos n)) ≤ℤ high)
      × ((max_ℤ low (min_ℤ high (pos n)) ≤ℤ pos n) ⊎ (max_ℤ low (min_ℤ high (pos n)) ≡ low))
clamped low high n h =
    let inner = min_ℤ high (pos n) in
    elim (max-cases low inner) [
      | inl (e, le) ↦ elim (min-cases high (pos n)) [
        | inl (f, k) ↦ rw (e, f) (rw f at le, k, inl (omega arith))
        | inr (f, k) ↦ rw (e, f) (rw f at le, omega arith, inl k)
      ]
      | inr (e, le) ↦ rw e (omega arith, h, inr refl)
    ]

-- If the least time to live of the configuration is not above the greatest, an answer is kept for a
-- time between the two, and no longer than any of its records lives, unless that is less than the least time.
pub cache_ttl_bounds :
    (cfg : Config) (answers : List Rr)
    → cfg.ttl_min ≤ℤ cfg.ttl_max
    → (cfg.ttl_min ≤ℤ cache_ttl cfg answers)
      × (cache_ttl cfg answers ≤ℤ cfg.ttl_max)
      × (All (λ rr. cache_ttl cfg answers ≤ℤ pos rr.ttl) answers
          ⊎ (cache_ttl cfg answers ≡ cfg.ttl_min))
unfolding cache_ttl
cache_ttl_bounds cfg answers h =
    let n = least_ttl (to_uint32 cfg.ttl_max) answers in
    let (low, high, short) = clamped cfg.ttl_min cfg.ttl_max n h in
    (
      low,
      high,
      elim short [
        | inl le ↦ inl (no_longer _ n answers le (least_ttl-All (to_uint32 cfg.ttl_max) answers))
        | inr e ↦ inr e
      ],
    )

abbrev pub query_key : Config → Option Match → Text → ℕ → Text
query_key cfg found domain query_type =
    cache_key domain query_type (chosen_upstreams found cfg.upstreams)

-- The entry that the cache then has for a response.
abbrev pub entry_for : World → ℕ → ℕ → Option Match → Message → Text → Cache.Entry
entry_for w level n found m upstream = record {
  result = kept (forwarded found m upstream);
  expires = (w.clock level).on_set + n * 1_000_000_000;
}

remember_lem :
    (cfg : Config) (key : Text) (now n : ℕ) (r : Resolved) (c c' : Cache.Cache)
    → (r.rcode == rcode_success && not (is_nil r.answers)) ≡ true
    → cache_ttl cfg r.answers ≡ pos n
    → Cache.set c key (kept r) (pos (n * 1_000_000_000)) now ≡ some c'
    → remember cfg key now r c ≡ some (c', some r)
unfolding remember
remember_lem cfg key now n r c c' good ttl done =
    let stored : Cache.set c key (kept r) (seconds (cache_ttl cfg r.answers)) now ≡ some c' =
      ap (λ t. Cache.set c key (kept r) (seconds t) now) ttl ∙ done in
    rw (good, stored, remember) refl

-- The response `m` of the upstream, as the result of the resolution: without the OPT records (type 41).
pub record IsForwarded (found : Option Match) (m : Message) (server : Text) (r : Resolved)
    : Type 0 where
  pub source : r.source ≡ codes "forward"
  pub rule_label : r.rule_label ≡ label found
  pub upstream : r.upstream ≡ server
  pub rcode : r.rcode ≡ m.rcode
  pub answers : r.answers ≡ m.answer
  pub authorities : r.authorities ≡ m.ns
  pub additionals : r.additionals ≡ keep (λ rr. not (rr.rrtype == 41)) m.extra

-- The same response from the cache at `now`, where it lasts until `expires`.
pub record IsRepeated (found : Option Match) (m : Message) (expires now : ℕ) (r : Resolved)
    : Type 0 where
  pub source : r.source ≡ codes "cache"
  pub rule_label : r.rule_label ≡ label found
  pub upstream : r.upstream ≡ []
  pub rcode : r.rcode ≡ m.rcode
  pub seconds : ℕ
  pub left : IsLeft expires now seconds
  pub answers : AreCapped seconds m.answer r.answers
  pub authorities : r.authorities ≡ m.ns
  pub additionals : r.additionals ≡ keep (λ rr. not (rr.rrtype == 41)) m.extra

forwarded-IsForwarded :
    (found : Option Match) (m : Message) (upstream : Text)
    → IsForwarded found m upstream (forwarded found m upstream)
unfolding forwarded
forwarded-IsForwarded found m upstream = record {
  source = refl;
  rule_label = refl;
  upstream = refl;
  rcode = refl;
  answers = refl;
  authorities = refl;
  additionals = refl;
}

cached-IsRepeated :
    (found : Option Match) (m : Message) (upstream : Text) (expires now : ℕ) (hit : Cache.Result)
    → IsAged expires now (kept (forwarded found m upstream)) hit
    → IsRepeated found m expires now (cached found hit)
unfolding cached forwarded
cached-IsRepeated found m upstream expires now hit a = record {
  source = refl;
  rule_label = refl;
  upstream = refl;
  rcode = a.rcode;
  seconds = a.seconds;
  left = a.left;
  answers = a.answers;
  authorities = a.authorities;
  additionals = a.additionals;
}

-- Where a valid cache has no answer and an upstream gives one, without an error and with records, and
-- the time to keep it is positive, the response is the result, without its OPT records, and goes into
-- the cache: until it expires, the same query is answered from there, at any level and whatever the
-- upstreams say. That answer has the same code, authorities and additionals and the same answer records, where a
-- time to live that is longer than what is left, in seconds to the nearest and at least one, is that
-- instead. What is left is below 2^31 seconds.
pub resolve_upstream_twice :
    (w w' : World) (cfg : Config) (level level' : ℕ) (found : Option Match) (domain : Text)
    (query_type : ℕ) (c : Cache.Cache) (m : Message) (upstream : Text) (n : ℕ)
    → IsValid c
    → (Cache.get c
        (query_key cfg found domain query_type)
        (w.clock level).on_get
        (w.clock level).on_hit).1
      ≡ none
    → forward w level domain query_type (chosen_upstreams found cfg.upstreams) ≡ some (m, upstream)
    → (m.rcode == rcode_success && not (is_nil m.answer)) ≡ true
    → cache_ttl cfg m.answer ≡ pos n
    → 0 < n
    → (w'.clock level').on_get < (w.clock level).on_set + n * 1_000_000_000
    → (w.clock level).on_set + n * 1_000_000_000 < (w'.clock level').on_hit + 1_000_000_000 * 2 ^ 31
    → (c' c'' : Cache.Cache) × (r r' : Resolved) × (resolve_upstream w cfg level found domain
          query_type c
        ≡ some (c', some r))
      × IsForwarded found m upstream r
      × (resolve_upstream w' cfg level' found domain query_type c' ≡ some (c'', some r'))
      × IsRepeated found m ((w.clock level).on_set + n * 1_000_000_000) (w'.clock level').on_hit r'
unfolding forwarded resolve_upstream
resolve_upstream_twice w w' cfg level level' found domain query_type c m upstream n v miss sent good
      ttl positive early near =
    let key = query_key cfg found domain query_type in
    let at = w.clock level in
    let at' = w'.clock level' in
    let r = forwarded found m upstream in
    let e = entry_for w level n found m upstream in
    let c₁ = (Cache.get c key at.on_get at.on_hit).0 in
    let v₁ = (get-ideal c key at.on_get at.on_hit v).0 in
    let (c', done, hits) =
      get-set-aged c₁ key (kept r) (n * 1_000_000_000) at.on_set v₁ (omega arith) in
    let hit : (Cache.get c' key at'.on_get at'.on_hit).1 ≡ some (Cache.aged e at'.on_hit) =
      hits at'.on_get at'.on_hit ∙ rw (lt→ltb _ _ early) refl in
    (
      c',
      (Cache.get c' key at'.on_get at'.on_hit).0,
      r,
      cached found (Cache.aged e at'.on_hit),
      rw (miss, sent, resolve_upstream) (remember_lem cfg key at.on_set n r c₁ c' good ttl done),
      forwarded-IsForwarded found m upstream,
      rw (hit, resolve_upstream) refl,
      cached-IsRepeated found m upstream _ at'.on_hit _ (aged-IsAged e at'.on_hit near),
    )
