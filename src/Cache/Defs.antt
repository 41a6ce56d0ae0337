-- ===== src/Cache/Defs.antt =====
-- The state and the methods of the cache.
use kaven_dns.Dns.{Rr}
use kaven_dns.Prelude.Assoc.{lookup, insert, delete, erase}
use kaven_dns.Prelude.{
  ℕ, zero, suc, ◌+◌, ◌-◌, ◌*◌, ◌/◌, ◌%◌, ◌^◌, max, true, false, not, Option, none, some, List, [],
  ◌∷◌, ◌++◌, map, ℤ, pos, ltb_ℤ, pos_part, Text, ltb, leb, if◌then◌else◌, length,
}

pub record Result : Type 0 where
  pub rcode : ℕ
  pub answers : List Rr
  pub authorities : List Rr
  pub additionals : List Rr

pub record Entry : Type 0 where
  pub result : Result
  pub expires : ℕ

-- `items` is the Go map, `order` the slice of its keys, least recently used first.
pub record Cache : Type 0 where
  pub max_entries : ℕ
  pub items : List (Text × Entry)
  pub order : List Text
  pub hits : ℕ
  pub misses : ℕ

-- A uint64 counter wraps.
abbrev pub u64 : ℕ → ℕ
u64 n = n % 2 ^ 64

unfoldable pub new : ℤ → Cache
new max = record {
  max_entries = if ltb_ℤ max (pos 1) then 1 else pos_part max;
  items = [];
  order = [];
  hits = 0;
  misses = 0;
}

-- The loop finds the first occurrence, and cuts it out.
unfoldable pub remove_order : Cache → Text → Cache
remove_order c key = record c { order = erase key c.order }

unfoldable pub touch : Cache → Text → Cache
unfolding remove_order
touch c key = let c' = remove_order c key in record c' { order = c'.order ++ key ∷ [] }

unfoldable pub remove : Cache → Text → Cache
unfolding remove_order
remove c key = remove_order (record c { items = delete key c.items }) key

-- `c.order[0]`, which is a run-time fault on an empty order.
unfoldable pub remove_oldest : Cache → List Text → Option Cache
unfolding remove
remove_oldest c [] = none
remove_oldest c (key ∷ _) = some (remove c key)

-- `for len(c.items) >= limit { c.remove(c.order[0]) }` on fuel. `none` is the fault on an empty
-- order, or the end of the fuel.
unfoldable pub evict_to : ℕ → ℕ → Cache → Option Cache
unfolding remove_oldest
evict_to zero limit c = none
evict_to (suc fuel) limit c = elim (leb limit (length c.items)) [
  | false ↦ some c
  | true ↦ elim (remove_oldest c c.order) [ none ↦ none | some c' ↦ evict_to fuel limit c' ]
]

-- `uint32(max(1, int(time.Until(expires).Seconds()+0.5)))`. A time past `expires` gives 1.
unfoldable pub remaining_seconds : ℕ → ℕ → ℕ
remaining_seconds expires now = max 1 ((expires - now + 500_000_000) / 1_000_000_000) % 2 ^ 32

unfoldable pub cap_ttl : ℕ → Rr → Rr
cap_ttl remaining rr = if ltb remaining rr.ttl then record rr { ttl = remaining } else rr

-- The copy that `Get` returns: no answer lives longer than the entry.
unfoldable pub aged : Entry → ℕ → Result
unfolding cap_ttl
aged e now = record (e.result) {
  answers = map (cap_ttl (remaining_seconds e.expires now)) e.result.answers;
}

-- `Get` reads the clock twice, for the expiry test and for the remaining time.
unfoldable pub get : Cache → Text → ℕ → ℕ → Cache × Option Result
unfolding remove touch
get c key now now' = elim (lookup key c.items) [
  | none ↦ (record c { misses = u64 (c.misses + 1) }, none)
  | some e ↦
      let kept = touch (record c { hits = u64 (c.hits + 1) }) key in
      let dropped = remove c key in
      if not (ltb now e.expires)
      then (record dropped { misses = u64 (c.misses + 1) }, none)
      else (kept, some (aged e now'))
]

-- Forgets an old entry under the key, if there is one.
unfoldable pub forget : Cache → Text → Cache
unfolding remove
forget c key = elim (lookup key c.items) [ none ↦ c | some _ ↦ remove c key ]

unfoldable pub store : Cache → Text → Entry → Cache
store c key e = record c { items = insert key e c.items; order = c.order ++ key ∷ [] }

-- `Set`, with `ttl` in nanoseconds. The loop removes an item in each round: as many rounds as there
-- are items, and one for the last test, are enough.
unfoldable pub set : Cache → Text → Result → ℤ → ℕ → Option Cache
unfolding forget evict_to store
set c key result ttl now =
    let c' = forget c key in
    if not (ltb_ℤ (pos 0) ttl)
    then some c
    else elim (evict_to (length c'.items + 1) c'.max_entries c') [
      | none ↦ none
      | some c'' ↦ some (store c'' key (record { result = result; expires = now + pos_part ttl }))
    ]

-- The loop of `Sweep` over the entries of the map. The map's own order is arbitrary.
unfoldable pub sweep_from : List (Text × Entry) → ℕ → Cache → Cache
unfolding remove
sweep_from [] now c = c
sweep_from ((key, e) ∷ rest) now c =
    sweep_from rest now (if not (ltb now e.expires) then remove c key else c)

unfoldable pub sweep : Cache → ℕ → Cache
unfolding sweep_from
sweep c now = sweep_from c.items now c

unfoldable pub flush : Cache → Cache × ℕ
flush c = (record c { items = []; order = [] }, length c.items)

-- The hit rate in per cent is a float in the source, and here a fraction.
pub record Info : Type 0 where
  pub size : ℕ
  pub max_entries : ℕ
  pub hits : ℕ
  pub misses : ℕ
  pub hit_rate : ℕ × ℕ

unfoldable pub info : Cache → Info
info c =
    let total = u64 (c.hits + c.misses) in
    record {
      size = length c.items;
      max_entries = c.max_entries;
      hits = c.hits;
      misses = c.misses;
      hit_rate = if ltb 0 total then (c.hits * 100, total) else (0, 1);
    }

-- `len(c.items) > c.max` is `len(c.items) >= c.max + 1`.
unfoldable pub set_max_entries : Cache → ℤ → Option Cache
unfolding evict_to
set_max_entries c max =
    let limit = if ltb_ℤ max (pos 1) then 1 else pos_part max in
    evict_to (length c.items + 1) (limit + 1) (record c { max_entries = limit })
