-- ===== src/Cache/Lru.antt =====
-- The cache against an ideal one: a list of entries, least recently used first, of bounded length.
use kaven_dns.Cache.Defs.{Result, Entry, Cache, touch, remove, get, forget, store, set}
use kaven_dns.Cache.Invariant.{IsValid, contents, Evicted, evict_to-Evicted, remove-Linked}
use kaven_dns.Cache.Linked.{
  length-erase_of_mem, Items, Linked, Linked-concat, Linked-touch, length-view, view, view-append,
  view-delete, view-insert, view-delete-erase, lookup-view,
}
use kaven_dns.Prelude.{
  ℕ, ◌+◌, ◌-◌, ◌<◌, ◌≡◌, refl, sym, ap, ◌∙◌, true, false, none, some, [], ◌∷◌, ◌++◌, pos, arith,
  Text, length, length-append, drop, ltb, if◌then◌else◌, Option-cases, inl, inr, Bool-cases,
}
use kaven_dns.Prelude.Assoc.{
  length-erase-le, erase_absent, lookup, mem, erase, insert, delete, mem_of_lookup,
  absent_of_lookup, lookup-insert, lookup-delete_self, lookup-drop_absent, delete_absent,
  mem-erase_self,
}

-- The ideal `Get`: a live entry moves to the end, an expired one goes.
unfoldable pub ideal_get : Text → ℕ → Items → Items
ideal_get k now l = elim (lookup k l) [
  | none ↦ l
  | some e ↦ if ltb now e.expires then delete k l ++ (k, e) ∷ [] else delete k l
]

-- The ideal `Set`: the key is new at the end, and only the last entries stay.
unfoldable pub ideal_set : ℕ → Text → Entry → Items → Items
ideal_set max k e l = drop (length (delete k l) + 1 - max) (delete k l) ++ (k, e) ∷ []

module _ (c : Cache) (k : Text) where
  -- To remove an absent key changes nothing.
  forget-remove : Linked c.order c.items → forget c k ≡ remove c k
  unfolding forget remove
  forget-remove l = elim (Option-cases (lookup k c.items)) [
    | inl miss ↦
        let absent = absent_of_lookup k c.items miss in
        ground
          (arith, miss, delete_absent k c.items miss, erase_absent k c.order (l.same k ∙ absent))
    | inr (e, hit) ↦ rw (hit, forget) refl
  ]

  pub contents-remove : Linked c.order c.items → contents (remove c k) ≡ delete k (contents c)
  unfolding remove
  contents-remove l = view-delete-erase k c.items c.order l.distinct

  pub remove-absent : Linked c.order c.items → lookup k (contents (remove c k)) ≡ none
  remove-absent l =
      lookup-view k _ _ (remove-Linked c k l)
      ∙ (unfold remove in lookup-delete_self k c.items l.unique)

  -- A touched key is the last.
  contents-touch :
      Linked c.order c.items
      → (e : Entry) → lookup k c.items ≡ some e
      → contents (touch c k) ≡ delete k (contents c) ++ (k, e) ∷ []
  unfolding touch view
  contents-touch l e hit =
      view-append c.items (erase k c.order) (k ∷ [])
      ∙ ground (
        arith,
        hit,
        view-delete k c.items (erase k c.order) (mem-erase_self k c.order l.distinct),
        view-delete-erase k c.items c.order l.distinct,
      )

  -- A new entry is the last.
  contents-store :
      (e : Entry)
      → Linked c.order c.items
      → mem k c.order ≡ false
      → contents (store c k e) ≡ contents c ++ (k, e) ∷ []
  unfolding store view
  contents-store e l h =
      view-append (insert k e c.items) c.order (k ∷ [])
      ∙ ground (arith, view-insert k e c.items c.order h, lookup-insert k k e c.items)

  store-IsValid :
      (e : Entry)
      → 0 < c.max_entries
      → Linked c.order c.items
      → mem k c.order ≡ false
      → length c.items < c.max_entries
      → IsValid (store c k e)
  unfolding store
  store-IsValid e p l h room =
      let l' = Linked-concat k e c.order c.items l h in
      record {
        positive = p;
        bounded = omega (arith, l'.counted, l.counted, length-append c.order (k ∷ []));
        linked = l';
      }

module _ (c : Cache) (k : Text) where
  -- The store after the eviction that makes room for it.
  store-Evicted :
      (e : Entry) (c' : Cache)
      → IsValid c
      → Evicted c.max_entries (remove c k) c'
      → IsValid (store c' k e)
        × (contents (store c' k e) ≡ ideal_set c.max_entries k e (contents c))
  unfolding ideal_set
  store-Evicted e c' v ev =
      let l = v.linked in
      let gone : lookup k (contents c') ≡ none =
        rw ev.kept (lookup-drop_absent k _ _ (remove-absent c k l)) in
      let fresh : mem k c'.order ≡ false =
        ev.linked.same k
        ∙ absent_of_lookup k c'.items (sym (lookup-view k c'.order c'.items ev.linked) ∙ gone) in
      let same_max : c'.max_entries ≡ c.max_entries = ev.max_kept ∙ (unfold remove in refl) in
      let same_length : length (delete k (contents c)) ≡ length (remove c k).items =
        ap length (sym (contents-remove c k l)) ∙ length-view _ _ (remove-Linked c k l) in
      (
        store-IsValid c' k e (omega (arith, v.positive)) ev.linked fresh (omega (arith, ev.below)),
        rw (contents-store c' k e ev.linked fresh, ev.kept, contents-remove c k l, same_length)
            refl,
      )

  -- On a valid cache `Set` with a positive lifetime ends without a fault, keeps the invariant, and
  -- does to the entries in order what the ideal cache does.
  pub set-ideal :
      (r : Result) (ttl now : ℕ)
      → IsValid c
      → 0 < ttl
      → (c' : Cache) × (set c k r (pos ttl) now ≡ some c')
        × IsValid c'
        × (contents c'
            ≡ ideal_set c.max_entries k (record { result = r; expires = now + ttl }) (contents c))
  unfolding set
  set-ideal r ttl now v p =
      let e : Entry = record { result = r; expires = now + ttl } in
      let c₁ = remove c k in
      let max_kept : c₁.max_entries ≡ c.max_entries = unfold remove in refl in
      let (c₂, done, ev) =
        evict_to-Evicted (length c₁.items + 1) c.max_entries c₁ v.positive (omega arith)
          (remove-Linked c k v.linked) in
      let (valid, ideal) = store-Evicted e c₂ v ev in
      (store c₂ k e, ground (arith, forget-remove c k v.linked, done), valid, ideal)

  pub remove-IsValid : IsValid c → IsValid (remove c k)
  unfolding remove
  remove-IsValid v =
      let l = remove-Linked c k v.linked in
      record {
        positive = v.positive;
        bounded = omega (
          arith,
          length-erase_of_mem k c.order,
          l.counted,
          v.linked.counted,
          v.bounded,
          length-erase-le k c.order,
        );
        linked = l;
      }

  touch-IsValid : (e : Entry) → lookup k c.items ≡ some e → IsValid c → IsValid (touch c k)
  unfolding touch
  touch-IsValid e hit v =
      let listed : mem k c.order ≡ true = v.linked.same k ∙ mem_of_lookup k c.items e hit in
      record {
        positive = v.positive;
        bounded = v.bounded;
        linked = Linked-touch k c.order c.items v.linked listed;
      }

module _ (c : Cache) (k : Text) where
  -- `Get` does to the entries in order what the ideal cache does, and keeps the invariant.
  pub get-ideal :
      (now now' : ℕ)
      → IsValid c
      → IsValid (get c k now now').0
        × (contents (get c k now now').0 ≡ ideal_get k now (contents c))
  unfolding get ideal_get
  get-ideal now now' v =
      let seen = lookup-view k c.order c.items v.linked in
      elim (Option-cases (lookup k c.items)) [
        | inl miss ↦
            rw (miss, seen ∙ miss, get, ideal_get)
              (record { positive = v.positive; bounded = v.bounded; linked = v.linked }, refl)
        | inr (e, hit) ↦ elim (Bool-cases (ltb now e.expires)) [
          | inl live ↦
              let w = touch-IsValid c k e hit v in
              rw (hit, seen ∙ hit, live, get, ideal_get)
                (
                  record { positive = w.positive; bounded = w.bounded; linked = w.linked },
                  contents-touch c k v.linked e hit,
                )
          | inr expired ↦
              let w = remove-IsValid c k v in
              rw (hit, seen ∙ hit, expired, get, ideal_get)
                (
                  record { positive = w.positive; bounded = w.bounded; linked = w.linked },
                  contents-remove c k v.linked,
                )
        ]
      ]
