-- ===== src/Cache/Tests.antt =====
-- The cache at concrete inputs.
use kaven_dns.Cache.Aging.{get-set, IsAged}
use kaven_dns.Cache.Defs.{
  remaining_seconds, aged, info, new, flush, sweep, set_max_entries, set, Result, Entry, Cache, get,
}
use kaven_dns.Cache.Invariant.{contents, IsValid}
use kaven_dns.Cache.Lru.{set-ideal, ideal_set, get-ideal, ideal_get}
use kaven_dns.Cache.Runs.{run-IsValid, flush_call, set_call, run}
use kaven_dns.Dns.{a}
use kaven_dns.Prelude.{
  none, some, [], ◌∷◌, refl, pos, negsuc, arith, ◌≡◌, ◌≤◌, ◌⊎◌, ◌+◌, ◌<◌, map, codes, Text-discrete,
}
use kaven_dns.Prelude.Assoc.{erase, delete, insert, mem, lookup}
use mathlib.Core.Option

abbrev answer : Result
answer = record {
  rcode = 0;
  answers = record { name = codes "a."; rrtype = 1; class = 1; ttl = 300; body = a [] } ∷ [];
  authorities = [];
  additionals = [];
}

abbrev entry_a : Entry
entry_a = record { result = answer; expires = 10_000_000_000 }

abbrev two : Cache
two = record {
  max_entries = 2;
  items = (codes "a", entry_a) ∷ (codes "b", record entry_a { expires = 5 }) ∷ [];
  order = codes "b" ∷ codes "a" ∷ [];
  hits = 0;
  misses = 0;
}

program : Unit {0}
unfolding get set sweep flush info set_max_entries aged remaining_seconds insert delete lookup erase
    mem Text-discrete
program = tt

two-IsValid : IsValid two
unfolding mem Text-discrete
two-IsValid = record {
  positive = omega arith;
  bounded = omega arith;
  linked = record {
    same = λ k. ground arith;
    distinct = (refl, (refl, tt));
    unique = (refl, (refl, tt));
    counted = refl;
  };
}

-- A hit moves the key to the end, and caps the time to live at the ten seconds left.
hit_test :
    ((get two (codes "b") 4 4).0.order ≡ codes "a" ∷ codes "b" ∷ [])
    × (Option.map (λ r. map (λ rr. rr.ttl) r.answers) (get two (codes "a") 4 4).1 ≡ some (10 ∷ []))
unfolding program
hit_test = (refl, refl)

-- At the maximum a new key evicts the least recently used one.
evict_test :
    Option.map (λ c. c.order) (set two (codes "c") answer (pos 1) 0)
    ≡ some (codes "a" ∷ codes "c" ∷ [])
unfolding program
evict_test = refl

set-ideal_example :
    (c' : Cache) × (set two (codes "c") answer (pos 7) 3 ≡ some c')
    × IsValid c'
    × (contents c'
        ≡ ideal_set 2 (codes "c") (record { result = answer; expires = 10 }) (contents two))
set-ideal_example = set-ideal two (codes "c") answer 7 3 two-IsValid (omega arith)

get-ideal_example :
    IsValid (get two (codes "b") 4 4).0
    × (contents (get two (codes "b") 4 4).0 ≡ ideal_get (codes "b") 4 (contents two))
get-ideal_example = get-ideal two (codes "b") 4 4 two-IsValid

get-set_example :
    (c' : Cache) × (set two (codes "c") answer (pos 7) 3 ≡ some c')
    × (((5 < 3 + 7)
          × ((r' : Result) × ((get c' (codes "c") 5 6).1 ≡ some r') × IsAged (3 + 7) 6 answer r'))
        ⊎ ((3 + 7 ≤ 5) × ((get c' (codes "c") 5 6).1 ≡ none)))
get-set_example = get-set two (codes "c") answer 7 3 5 6 two-IsValid (omega arith) (omega arith)

run-IsValid_example :
    (c : Cache) × (run (new (negsuc 0)) (set_call (codes "a") answer (pos 5) 0 ∷ flush_call ∷ [])
      ≡ some c)
    × IsValid c
run-IsValid_example =
    run-IsValid (negsuc 0) (set_call (codes "a") answer (pos 5) 0 ∷ flush_call ∷ [])
