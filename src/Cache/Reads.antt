-- ===== src/Cache/Reads.antt =====
-- What can be read after a call, and the other methods.
use kaven_dns.Cache.Defs.{
  touch, remove, Result, Entry, Cache, remaining_seconds, cap_ttl, aged, get, set, sweep_from,
  sweep, set_max_entries,
}
use kaven_dns.Cache.Invariant.{evict_to-Evicted, contents, IsValid}
use kaven_dns.Cache.Linked.{lookup-view, Items}
use kaven_dns.Cache.Lru.{remove-absent, remove-IsValid, contents-remove, set-ideal, ideal_set}
use kaven_dns.Dns.{Rr}
use kaven_dns.Prelude.{
  none, some, [], ◌∷◌, false, inl, inr, refl, pos, arith, ℕ, ◌≡◌, List, Text, Bool, ◌||◌, map, ◌∙◌,
  ◌&&◌, pos_part, not, max, Text-discrete, All, ◌≤◌, ◌^◌, text_eq, ltb_ℤ, ◌*◌, ℤ, sym, Bool-cases,
  drop, ◌-◌, ◌+◌, ltb, length, if◌then◌else◌, ◌++◌, ◌≢◌, ◌<◌,
}
use kaven_dns.Prelude.Assoc.{
  lookup_absent, lookup-delete_self, keys, Distinct, lookup-drop_absent, lookup-delete_ne,
  lookup-append, delete, lookup,
}

lookup-delete-append :
    (k j : Text) (e : Entry) (l : Items) → j ≢ k → lookup j (delete k l ++ (k, e) ∷ []) ≡ lookup j l
unfolding lookup
lookup-delete-append k j e l h =
    ground (arith, lookup-append j (delete k l) ((k, e) ∷ []), lookup-delete_ne k j l h)

lookup-ideal_set_self :
    (max : ℕ) (k : Text) (e : Entry) (l : Items)
    → lookup k (delete k l) ≡ none
    → lookup k (ideal_set max k e l) ≡ some e
unfolding ideal_set lookup
lookup-ideal_set_self max k e l h =
    let n = length (delete k l) + 1 - max in
    ground (
      arith,
      lookup-append k (drop n (delete k l)) ((k, e) ∷ []),
      lookup-drop_absent k n (delete k l) h,
    )

-- The result of a `Get` whose key has the entry `e`.
get-lookup :
    (c : Cache) (k : Text) (t t' : ℕ) (e : Entry)
    → lookup k c.items ≡ some e
    → (get c k t t').1 ≡ (if ltb t e.expires then some (aged e t') else none)
unfolding get
get-lookup c k t t' e hit = ground (arith, hit)

delete-contents-absent :
    (c : Cache) (k : Text) → IsValid c → lookup k (delete k (contents c)) ≡ none
delete-contents-absent c k v = rw (← contents-remove c k v.linked) (remove-absent c k v.linked)

module _ (c : Cache) (k : Text) where
  -- A `Get` after a `Set` with a positive lifetime, by the entry that was set.
  pub get-set-aged :
      (r : Result) (ttl now : ℕ)
      → IsValid c
      → 0 < ttl
      → (c' : Cache) × (set c k r (pos ttl) now ≡ some c')
        × ((t t' : ℕ)
            → (get c' k t t').1 ≡ (
                if ltb t (now + ttl)
                then some (aged (record { result = r; expires = now + ttl }) t')
                else none))
  get-set-aged r ttl now v p =
      let e : Entry = record { result = r; expires = now + ttl } in
      let (c', done, valid, ideal) = set-ideal c k r ttl now v p in
      let there : lookup k c'.items ≡ some e =
        sym (lookup-view k c'.order c'.items valid.linked)
        ∙ rw ideal
            (lookup-ideal_set_self c.max_entries k e (contents c) (delete-contents-absent c k v)) in
      (c', done, λ t t'. get-lookup c' k t t' e there)

  -- A `Get` of one key neither adds, drops nor changes the entry of another.
  pub lookup-get_ne :
      (j : Text) (t t' : ℕ) → j ≢ k → lookup j (get c k t t').0.items ≡ lookup j c.items
  unfolding get remove touch
  lookup-get_ne j t t' h = ground (arith, lookup-delete_ne k j c.items h)

cap_ttl_bound : (n : ℕ) (rrs : List Rr) → All (λ rr. rr.ttl ≤ n) (map (cap_ttl n) rrs)
unfolding cap_ttl
cap_ttl_bound n [] = tt
cap_ttl_bound n (rr ∷ rrs) = (ground arith, cap_ttl_bound n rrs)

remaining_seconds_pos :
    (expires now : ℕ) → expires < now + 1_000_000_000 * 2 ^ 31 → 1 ≤ remaining_seconds expires now
unfolding remaining_seconds
remaining_seconds_pos expires now h = omega arith

remaining_seconds_le :
    (expires now : ℕ)
    → remaining_seconds expires now * 1_000_000_000
      ≤ max 1_000_000_000 (expires - now + 500_000_000)
unfolding remaining_seconds
remaining_seconds_le expires now = omega arith

-- A `Get` of a live entry returns its answer, unchanged but for the times to live of the answer
-- records: none exceeds the seconds that the entry has left, rounded, at least one. The bound on the
-- lifetime, some 68 years, keeps the conversion to uint32 exact.
pub get_ttl_bound :
    (c : Cache) (k : Text) (t t' : ℕ) (e : Entry)
    → lookup k c.items ≡ some e
    → t < e.expires
    → e.expires < t' + 1_000_000_000 * 2 ^ 31
    → (r : Result) × ((get c k t t').1 ≡ some r)
      × All (λ rr. rr.ttl ≤ remaining_seconds e.expires t') r.answers
      × (1 ≤ remaining_seconds e.expires t')
      × (remaining_seconds e.expires t' * 1_000_000_000
          ≤ max 1_000_000_000 (e.expires - t' + 500_000_000))
      × (r.rcode ≡ e.result.rcode)
      × (r.authorities ≡ e.result.authorities)
      × (r.additionals ≡ e.result.additionals)
unfolding aged
get_ttl_bound c k t t' e hit alive near = (
  aged e t',
  ground (arith, get-lookup c k t t' e hit),
  cap_ttl_bound (remaining_seconds e.expires t') e.result.answers,
  remaining_seconds_pos e.expires t' near,
  remaining_seconds_le e.expires t',
  refl,
  refl,
  refl,
)

-- Whether the entries that `Sweep` visits hold an expired one under the key.
abbrev expired_in : Text → ℕ → Items → Bool
expired_in j now [] = false
expired_in j now ((k, e) ∷ l) = (text_eq k j && not (ltb now e.expires)) || expired_in j now l

sweep_from-IsValid : (l : Items) (now : ℕ) (c : Cache) → IsValid c → IsValid (sweep_from l now c)
unfolding sweep_from
sweep_from-IsValid [] now c v = v
sweep_from-IsValid ((k, e) ∷ l) now c v = elim (Bool-cases (ltb now e.expires)) [
  | inl live ↦ rw live (sweep_from-IsValid l now c v)
  | inr late ↦ rw late (sweep_from-IsValid l now (remove c k) (remove-IsValid c k v))
]

lookup-remove :
    (c : Cache) (k j : Text)
    → IsValid c
    → lookup j (remove c k).items ≡ (if text_eq k j then none else lookup j c.items)
unfolding remove
lookup-remove c k j v = elim (Text-discrete k j) [
  | yes p ↦ ground (arith, lookup-delete_self k c.items v.linked.unique)
  | no p ↦ ground (arith, lookup-delete_ne k j c.items (λ q. p (sym q)))
]

lookup-sweep_from :
    (j : Text) (l : Items) (now : ℕ) (c : Cache)
    → IsValid c
    → lookup j (sweep_from l now c).items ≡ (if expired_in j now l then none else lookup j c.items)
unfolding sweep_from
lookup-sweep_from j [] now c v = refl
lookup-sweep_from j ((k, e) ∷ l) now c v = elim (Bool-cases (ltb now e.expires)) [
  | inl live ↦ rw live (ground (arith, lookup-sweep_from j l now c v))
  | inr late ↦ rw late (
      ground (
        arith,
        lookup-sweep_from j l now (remove c k) (remove-IsValid c k v),
        lookup-remove c k j v,
      ))
]

expired_in-lookup :
    (j : Text) (now : ℕ) (l : Items)
    → Distinct (keys l)
    → expired_in j now l ≡ elim (lookup j l) [ none ↦ false | some e ↦ not (ltb now e.expires) ]
unfolding lookup
expired_in-lookup j now [] d = refl
expired_in-lookup j now ((k, e) ∷ l) d =
    ground (arith, expired_in-lookup j now l d.1, lookup_absent k l d.0)

-- `Sweep` keeps the invariant, and drops the expired entries and no others.
pub sweep_lem :
    (c : Cache) (now : ℕ)
    → IsValid c
    → IsValid (sweep c now)
      × ((j : Text)
          → lookup j (sweep c now).items ≡ elim (lookup j c.items) [
            | none ↦ none
            | some e ↦ if ltb now e.expires then some e else none
          ])
unfolding sweep
sweep_lem c now v = (
  sweep_from-IsValid c.items now c v,
  λ j.
      ground (
        arith,
        lookup-sweep_from j c.items now c v,
        expired_in-lookup j now c.items v.linked.unique,
      ),
)

abbrev pub at_least_one : ℤ → ℕ
at_least_one n = if ltb_ℤ n (pos 1) then 1 else pos_part n

at_least_one_pos : (n : ℤ) → 0 < at_least_one n
at_least_one_pos n = ground arith

-- On a valid cache `SetMaxEntries` ends without a fault and keeps the invariant: of the entries in
-- order only the last stay, as many as fit the new maximum, which is at least 1.
pub set_max_entries-IsValid :
    (c : Cache) (max : ℤ)
    → IsValid c
    → (c' : Cache) × (set_max_entries c max ≡ some c')
      × IsValid c'
      × (c'.max_entries ≡ at_least_one max)
      × (contents c' ≡ drop (length c.items - at_least_one max) (contents c))
unfolding set_max_entries
set_max_entries-IsValid c max v =
    let limit = at_least_one max in
    let (c', done, ev) =
      evict_to-Evicted (length c.items + 1) (limit + 1) (record c { max_entries = limit })
        (omega arith) (omega arith) v.linked in
    (
      c',
      done,
      record {
        positive = omega (arith, ev.max_kept, at_least_one_pos max);
        bounded = omega (arith, ev.max_kept, ev.below);
        linked = ev.linked;
      },
      ev.max_kept,
      (let shift : length c.items + 1 - (limit + 1) ≡ length c.items - limit = omega arith in
          rw shift at ev.kept),
    )
