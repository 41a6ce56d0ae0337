-- ===== src/Cache/Runs.antt =====
-- Any sequence of calls, from a new cache.
use kaven_dns.Cache.Defs.{set_max_entries, sweep, get, new, Result, set, flush, Cache}
use kaven_dns.Cache.Invariant.{new-IsValid, IsValid}
use kaven_dns.Cache.Linked.{Linked-nil}
use kaven_dns.Cache.Lru.{set-ideal, get-ideal}
use kaven_dns.Cache.Reads.{set_max_entries-IsValid, sweep_lem}
use kaven_dns.Prelude.{
  none, some, [], ◌∷◌, zero, suc, refl, pos, negsuc, arith, ℕ, ◌≡◌, List, Text, Option, ℤ,
}

pub data Call : Type 0 where
  get_call : Text → ℕ → ℕ → Call
  set_call : Text → Result → ℤ → ℕ → Call
  sweep_call : ℕ → Call
  flush_call : Call
  resize_call : ℤ → Call

unfoldable pub step : Cache → Call → Option Cache
step c (get_call k now now') = some (get c k now now').0
step c (set_call k r ttl now) = set c k r ttl now
step c (sweep_call now) = some (sweep c now)
step c flush_call = some (flush c).0
step c (resize_call max) = set_max_entries c max

unfoldable pub run : Cache → List Call → Option Cache
unfolding step
run c [] = some c
run c (call ∷ calls) = elim (step c call) [ none ↦ none | some c' ↦ run c' calls ]

pub set-IsValid :
    (c : Cache) (k : Text) (r : Result) (ttl : ℤ) (now : ℕ)
    → IsValid c
    → (c' : Cache) × (set c k r ttl now ≡ some c') × IsValid c'
unfolding set
set-IsValid c k r (negsuc n) now v = (c, ground arith, v)
set-IsValid c k r (pos zero) now v = (c, refl, v)
set-IsValid c k r (pos (suc n)) now v =
    let (c', done, valid, _) = set-ideal c k r (suc n) now v (omega arith) in (c', done, valid)

pub flush-IsValid : (c : Cache) → IsValid c → IsValid (flush c).0
unfolding flush
flush-IsValid c v = record { positive = v.positive; bounded = omega arith; linked = Linked-nil }

step-IsValid :
    (c : Cache) (call : Call) → IsValid c → (c' : Cache) × (step c call ≡ some c') × IsValid c'
unfolding step
step-IsValid c (get_call k now now') v = ((get c k now now').0, refl, (get-ideal c k now now' v).0)
step-IsValid c (set_call k r ttl now) v = set-IsValid c k r ttl now v
step-IsValid c (sweep_call now) v = (sweep c now, refl, (sweep_lem c now v).0)
step-IsValid c flush_call v = ((flush c).0, refl, flush-IsValid c v)
step-IsValid c (resize_call max) v =
    let (c', done, valid, _, _) = set_max_entries-IsValid c max v in (c', done, valid)

run_from-IsValid :
    (c : Cache) (calls : List Call)
    → IsValid c
    → (c' : Cache) × (run c calls ≡ some c') × IsValid c'
unfolding run
run_from-IsValid c [] v = (c, refl, v)
run_from-IsValid c (call ∷ calls) v =
    let (c₁, first, v₁) = step-IsValid c call v in
    let (c₂, rest, v₂) = run_from-IsValid c₁ calls v₁ in (c₂, ground (arith, first, rest), v₂)

-- No sequence of calls on a new cache faults or runs forever, and the cache that it leads to is
-- valid: at most the maximum of entries, and an order that lists each of their keys once.
pub run-IsValid :
    (max : ℤ) (calls : List Call) → (c : Cache) × (run (new max) calls ≡ some c) × IsValid c
run-IsValid max calls = run_from-IsValid (new max) calls (new-IsValid max)
