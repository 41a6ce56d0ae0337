-- ===== src/Resolver/Levels.antt =====
-- A resolution ends without a fault of the cache, whatever rules, upstreams and chain of CNAMEs.
use kaven_dns.Cache.Invariant.{IsValid}
use kaven_dns.Cache.Lru.{get-ideal}
use kaven_dns.Cache.Runs.{set-IsValid}
use kaven_dns.Config.{Config}
use kaven_dns.Dns.{type_cname, rcode_success}
use kaven_dns.Go.{fields}
use kaven_dns.Prelude.{
  none, some, [], ◌∷◌, zero, suc, inl, inr, refl, ℕ, ◌≡◌, List, Text, Option, ◌&&◌, ◌==◌, not,
  codes, text_eq, Option-cases, Bool-cases,
}
use kaven_dns.Prelude.Assoc.{mem}
use kaven_dns.Resolver.Defs.{
  extra_answers, cname_record, address_records, fixed_result, chain, is_nil, forwarded, forward,
  cached, cache_ttl, seconds, is_fixed_match, cache_key, kept, chosen_upstreams, chased, Resolved,
  resolve_with, resolve_upstream, resolve_from, resolve, remember, fixed, Run, Chase,
}
use kaven_dns.Resolver.World.{World}
use kaven_dns.Rules.{Store, Match, find, normalize_domain}
use kaven_dns.Cache

-- A run that ends, in a cache that is valid.
abbrev pub EndsValid : Run → Type 0
EndsValid run = (c : Cache.Cache) × (r : Option Resolved) × (run ≡ some (c, r)) × IsValid c

-- So does the resolution of any target, if the chain may grow.
abbrev ChaseEnds : Chase → Type 0
ChaseEnds none = Unit
ChaseEnds (some go) =
    (target : Text) (visited : List Text) (c : Cache.Cache)
    → IsValid c
    → EndsValid (go target visited c)

remember-EndsValid :
    (cfg : Config) (key : Text) (now : ℕ) (r : Resolved) (c : Cache.Cache)
    → IsValid c
    → EndsValid (remember cfg key now r c)
unfolding remember
remember-EndsValid cfg key now r c v =
    let (c', done, valid) = set-IsValid c key (kept r) (seconds (cache_ttl cfg r.answers)) now v in
    elim (Bool-cases (r.rcode == rcode_success && not (is_nil r.answers))) [
      | inl h ↦ (c', some r, rw (h, done, remember) refl, valid)
      | inr h ↦ (c, some r, rw (h, remember) refl, v)
    ]

resolve_upstream-EndsValid :
    (w : World) (cfg : Config) (level : ℕ) (found : Option Match) (domain : Text) (query_type : ℕ)
    (c : Cache.Cache)
    → IsValid c
    → EndsValid (resolve_upstream w cfg level found domain query_type c)
unfolding resolve_upstream
resolve_upstream-EndsValid w cfg level found domain query_type c v =
    let upstreams = chosen_upstreams found cfg.upstreams in
    let key = cache_key domain query_type upstreams in
    let at = w.clock level in
    let c' = (Cache.get c key at.on_get at.on_hit).0 in
    let v' = (get-ideal c key at.on_get at.on_hit v).0 in
    elim (Option-cases (Cache.get c key at.on_get at.on_hit).1) [
      | inr (hit, h) ↦ (c', some (cached found hit), rw (h, resolve_upstream) refl, v')
      | inl h ↦ elim (Option-cases (forward w level domain query_type upstreams)) [
        | inl f ↦ (c', none, rw (h, f, resolve_upstream) refl, v')
        | inr ((m, upstream), f) ↦
            let (c'', r, done, valid) =
              remember-EndsValid cfg key at.on_set (forwarded found m upstream) c' v' in
            (c'', r, rw (h, f, resolve_upstream) done, valid)
      ]
    ]

chain-EndsValid :
    (chase : Chase) (w : World) (m : Match) (domain : Text) (query_type : ℕ) (visited : List Text)
    (c : Cache.Cache)
    → ChaseEnds chase
    → IsValid c
    → EndsValid (chain chase w m domain query_type visited c)
unfolding chain chased
chain-EndsValid none w m domain query_type visited c e v =
    (c, some (fixed_result m (cname_record w m domain ∷ [])), refl, v)
chain-EndsValid (some go) w m domain query_type visited c e v =
    let target = normalize_domain m.rule.value in
    let first = cname_record w m domain in
    let (c', r, done, valid) = e target (target ∷ visited) c v in
    elim (Bool-cases (not (query_type == type_cname) && not (mem target visited))) [
      | inl k ↦ rw (k, done) (c', some (fixed_result m (first ∷ extra_answers r)), refl, valid)
      | inr k ↦ rw k (c, some (fixed_result m (first ∷ [])), refl, v)
    ]

fixed-EndsValid :
    (chase : Chase) (w : World) (m : Match) (domain : Text) (query_type : ℕ) (visited : List Text)
    (c : Cache.Cache)
    → ChaseEnds chase
    → IsValid c
    → EndsValid (fixed chase w m domain query_type visited c)
unfolding fixed chased
fixed-EndsValid chase w m domain query_type visited c e v =
    elim (Bool-cases (text_eq m.rule.type (codes "CNAME"))) [
      | inl h ↦ rw (h, fixed) (chain-EndsValid chase w m domain query_type visited c e v)
      | inr h ↦
          rw (h, fixed)
            (
              c,
              some (fixed_result m (address_records (w.fqdn domain) m.rule (fields m.rule.value))),
              refl,
              v,
            )
    ]

resolve_with-EndsValid :
    (chase : Chase) (w : World) (cfg : Config) (rules : Store) (level : ℕ) (domain : Text)
    (query_type : ℕ) (visited : List Text) (c : Cache.Cache)
    → ChaseEnds chase
    → IsValid c
    → EndsValid (resolve_with chase w cfg rules level domain query_type visited c)
unfolding resolve_with
resolve_with-EndsValid chase w cfg rules level domain query_type visited c e v =
    elim (Option-cases (find rules domain (w.type_name query_type))) [
      | inl h ↦
          rw (h, resolve_with)
            (resolve_upstream-EndsValid w cfg level (find rules domain (w.type_name query_type))
              domain query_type c v)
      | inr (m, h) ↦ elim (Bool-cases (is_fixed_match m)) [
        | inl k ↦
            rw (h, k, resolve_with) (fixed-EndsValid chase w m domain query_type visited c e v)
        | inr k ↦
            rw (h, k, resolve_with)
              (resolve_upstream-EndsValid w cfg level (find rules domain (w.type_name query_type))
                domain query_type c v)
      ]
    ]

resolve_from-EndsValid :
    (level : ℕ) (w : World) (cfg : Config) (rules : Store) (domain : Text) (query_type : ℕ)
    (visited : List Text) (c : Cache.Cache)
    → IsValid c
    → EndsValid (resolve_from level w cfg rules domain query_type visited c)
unfolding resolve_from
resolve_from-EndsValid zero w cfg rules domain query_type visited c v =
    resolve_with-EndsValid none w cfg rules 0 domain query_type visited c tt v
resolve_from-EndsValid (suc level) w cfg rules domain query_type visited c v =
    let go = λ (target : Text) (seen : List Text) (c' : Cache.Cache).
      resolve_from level w cfg rules target query_type seen c' in
    let ends = λ (target : Text) (seen : List Text) (c' : Cache.Cache) (v' : IsValid c').
      resolve_from-EndsValid level w cfg rules target query_type seen c' v' in
    resolve_with-EndsValid (some go) w cfg rules (suc level) domain query_type visited c ends v

-- On a valid cache a resolution ends, with a result or an error, and without a fault of the cache, which is
-- valid afterwards: whatever the rules, the replies and their order, and also where CNAME rules form a loop.
pub resolve-EndsValid :
    (w : World) (cfg : Config) (rules : Store) (raw_domain : Text) (query_type : ℕ)
    (c : Cache.Cache)
    → IsValid c
    → EndsValid (resolve w cfg rules raw_domain query_type c)
unfolding resolve
resolve-EndsValid w cfg rules raw_domain query_type c v =
    resolve_from-EndsValid 4 w cfg rules (normalize_domain raw_domain) query_type [] c v
