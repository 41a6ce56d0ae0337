-- ===== src/Cache/Invariant.antt =====
-- The invariant of the cache, and that every method keeps it.
use kaven_dns.Cache.Defs.{Cache, new, remove, remove_oldest, evict_to}
use kaven_dns.Cache.Linked.{Items, Linked, Linked-nil, Linked-erase, view, view-delete-erase}
use kaven_dns.Prelude.Assoc.{keys, mem, delete, lookup_of_mem, length-erase}
use kaven_dns.Prelude.{
  leb→le, leb→lt, drop-suc, ap, ℕ, zero, suc, ◌+◌, ◌-◌, ◌≤◌, ◌<◌, ◌≡◌, refl, sym, ◌∙◌, inl, inr,
  true, some, List, [], ◌∷◌, ℤ, arith, Text, length, drop, leb, Bool-cases,
}

-- Never more entries than the maximum, and the order lists each key of the map once.
pub record IsValid (c : Cache) : Type 0 where
  pub positive : 0 < c.max_entries
  pub bounded : length c.items ≤ c.max_entries
  pub linked : Linked c.order c.items

-- The entries, least recently used first.
abbrev pub contents : Cache → Items
contents c = view c.items c.order

pub new-IsValid : (max : ℤ) → IsValid (new max)
unfolding new
new-IsValid max = record { positive = ground arith; bounded = ground arith; linked = Linked-nil }

pub remove-Linked :
    (c : Cache) (k : Text) → Linked c.order c.items → Linked (remove c k).order (remove c k).items
unfolding remove
remove-Linked c k l = Linked-erase k c.order c.items l

-- What is left when the oldest entry, the first of the contents, goes.
pub record Shifted (c : Cache) (c' : Cache) : Type 0 where
  pub linked : Linked c'.order c'.items
  pub shifted : contents c' ≡ drop 1 (contents c)
  pub smaller : length c'.items + 1 ≡ length c.items
  pub max_kept : c'.max_entries ≡ c.max_entries

delete-head :
    (items : Items) (k : Text) (ks : List Text)
    → mem k (keys items) ≡ true
    → delete k (view items (k ∷ ks)) ≡ drop 1 (view items (k ∷ ks))
unfolding view delete
delete-head items k ks h = let (e, found) = lookup_of_mem k items h in ground (arith, found)

remove_oldest-Shifted :
    (c : Cache) (order : List Text)
    → c.order ≡ order
    → Linked c.order c.items
    → 0 < length c.items
    → (c' : Cache) × (remove_oldest c order ≡ some c') × Shifted c c'
unfolding remove_oldest
remove_oldest-Shifted c [] e l h = absurd (omega (arith, ap length e, l.counted))
remove_oldest-Shifted c (k ∷ ks) e l h =
    let listed : mem k c.order ≡ true = rw e (unfold mem in ground arith) in
    let present : mem k (keys c.items) ≡ true = sym (l.same k) ∙ listed in
    (
      remove c k,
      refl,
      unfold remove in
          record {
            linked = Linked-erase k c.order c.items l;
            shifted =
                view-delete-erase k c.items c.order l.distinct
                ∙ rw e (delete-head c.items k ks present);
            smaller = omega (
              arith,
              length-erase k c.order listed,
              l.counted,
              (Linked-erase k c.order c.items l).counted,
            );
            max_kept = refl;
          },
    )

-- What the eviction loop leaves: the state after it, if it ends without a fault.
pub record Evicted (limit : ℕ) (c : Cache) (c' : Cache) : Type 0 where
  pub linked : Linked c'.order c'.items
  pub kept : contents c' ≡ drop (length c.items + 1 - limit) (contents c)
  pub below : length c'.items < limit
  pub no_larger : length c'.items ≤ length c.items
  pub max_kept : c'.max_entries ≡ c.max_entries

evict_to-done :
    (limit : ℕ) (c : Cache) → length c.items < limit → Linked c.order c.items → Evicted limit c c
evict_to-done limit c h l = record {
  linked = l;
  kept = let none_gone : length c.items + 1 - limit ≡ 0 = omega arith in rw none_gone refl;
  below = h;
  no_larger = omega arith;
  max_kept = refl;
}

evict_to-more :
    (limit : ℕ) (c c₁ c₂ : Cache)
    → limit ≤ length c.items
    → Shifted c c₁
    → Evicted limit c₁ c₂
    → Evicted limit c c₂
evict_to-more limit c c₁ c₂ h s e = record {
  linked = e.linked;
  kept =
      let one_more : length c.items + 1 - limit ≡ suc (length c₁.items + 1 - limit) =
        omega (arith, s.smaller) in
      rw (one_more, drop-suc, ← s.shifted) e.kept;
  below = e.below;
  no_larger = omega (arith, s.smaller, e.no_larger);
  max_kept = e.max_kept ∙ s.max_kept;
}

-- With more fuel than there are entries the loop ends, and without a fault.
pub evict_to-Evicted :
    (fuel limit : ℕ) (c : Cache)
    → 0 < limit
    → length c.items < fuel
    → Linked c.order c.items
    → (c' : Cache) × (evict_to fuel limit c ≡ some c') × Evicted limit c c'
unfolding evict_to
evict_to-Evicted zero limit c p f l = absurd (omega arith)
evict_to-Evicted (suc fuel) limit c p f l = elim (Bool-cases (leb limit (length c.items))) [
  | inl full ↦
      let some_left : limit ≤ length c.items = leb→le _ _ full in
      let (c₁, e₁, s) = remove_oldest-Shifted c c.order refl l (omega arith) in
      let (c₂, e₂, v) = evict_to-Evicted fuel limit c₁ p (omega (arith, s.smaller)) s.linked in
      (c₂, ground (arith, full, e₁, e₂), evict_to-more limit c c₁ c₂ some_left s v)
  | inr room ↦ (c, ground arith, evict_to-done limit c (leb→lt _ _ room) l)
]
