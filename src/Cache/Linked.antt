-- ===== src/Cache/Linked.antt =====
-- The order of the keys beside the map of the entries, and the entries in that order.
use kaven_dns.Cache.Defs.{Entry}
use kaven_dns.Prelude.Assoc.{
  Distinct, mem, erase, keys, lookup, insert, delete, mem-append, mem-erase_ne, mem-erase_self,
  erase_absent, length-erase, erase-Distinct, concat-Distinct, keys-delete, lookup-delete_ne,
  lookup_absent, lookup_of_mem, insert_new, keys-append, length-keys, lookup-insert, delete_absent,
}
use kaven_dns.Prelude.{
  ◌-◌, ◌≡◌, refl, sym, true, false, none, some, List, [], ◌∷◌, ◌++◌, ◌∙◌, arith, Text,
  Text-discrete, length, length-append, Bool-cases, inl, inr, if◌then◌else◌,
}

abbrev pub Items : Type 0
Items = List (Text × Entry)

-- The order lists each key of the map once.
pub record Linked (order : List Text) (items : Items) : Type 0 where
  pub same : (k : Text) → mem k order ≡ mem k (keys items)
  pub distinct : Distinct order
  pub unique : Distinct (keys items)
  pub counted : length order ≡ length items

pub Linked-nil : Linked [] []
Linked-nil = record { same = λ k. refl; distinct = tt; unique = tt; counted = refl }

same-erase :
    (k j : Text) (xs ys : List Text)
    → Distinct xs
    → Distinct ys
    → mem j xs ≡ mem j ys
    → mem j (erase k xs) ≡ mem j (erase k ys)
same-erase k j xs ys dx dy e = elim (Text-discrete j k) [
  | yes p ↦ ground (arith, mem-erase_self k xs dx, mem-erase_self k ys dy)
  | no p ↦ ground (arith, mem-erase_ne k j xs p, mem-erase_ne k j ys p)
]

pub length-erase_of_mem :
    (k : Text) (xs : List Text)
    → length (erase k xs) ≡ (if mem k xs then length xs - 1 else length xs)
length-erase_of_mem k xs = elim (Bool-cases (mem k xs)) [
  | inl e ↦ ground (arith, length-erase k xs)
  | inr e ↦ ground (arith, erase_absent k xs)
]

-- Both lose a key.
pub Linked-erase :
    (k : Text) (order : List Text) (items : Items)
    → Linked order items
    → Linked (erase k order) (delete k items)
Linked-erase k order items l = record {
  same = λ j.
      rw (keys-delete k items) (same-erase k j order (keys items) l.distinct l.unique (l.same j));
  distinct = erase-Distinct k order l.distinct;
  unique = rw (keys-delete k items) (erase-Distinct k (keys items) l.unique);
  counted = ground (
    arith,
    length-erase_of_mem k order,
    length-erase_of_mem k (keys items),
    length-keys items,
    length-keys (delete k items),
    keys-delete k items,
    l.same k,
    l.counted,
  );
}

-- Both gain a key.
pub Linked-concat :
    (k : Text) (e : Entry) (order : List Text) (items : Items)
    → Linked order items
    → mem k order ≡ false
    → Linked (order ++ k ∷ []) (insert k e items)
unfolding mem
Linked-concat k e order items l h =
    let fresh : lookup k items ≡ none = lookup_absent k items (ground (arith, l.same k)) in
    rw (insert_new k e items fresh) (record {
      same = λ j. rw (keys-append items ((k, e) ∷ [])) (
          ground
            (arith, mem-append j order (k ∷ []), mem-append j (keys items) (k ∷ []), l.same j));
      distinct = concat-Distinct k order l.distinct h;
      unique =
          rw (keys-append items ((k, e) ∷ []))
            (concat-Distinct k (keys items) l.unique (ground (arith, l.same k)));
      counted =
          omega (arith, length-append order (k ∷ []), length-append items ((k, e) ∷ []), l.counted);
    })

-- A key moves to the end of the order.
pub Linked-touch :
    (k : Text) (order : List Text) (items : Items)
    → Linked order items
    → mem k order ≡ true
    → Linked (erase k order ++ k ∷ []) items
unfolding mem
Linked-touch k order items l h = record {
  same = λ j. elim (Text-discrete j k) [
    | yes p ↦ ground (arith, mem-append j (erase k order) (k ∷ []), l.same k)
    | no p ↦
        ground (arith, mem-append j (erase k order) (k ∷ []), mem-erase_ne k j order p, l.same j)
  ];
  distinct =
      concat-Distinct k (erase k order) (erase-Distinct k order l.distinct)
        (mem-erase_self k order l.distinct);
  unique = l.unique;
  counted =
      omega (arith, length-append (erase k order) (k ∷ []), length-erase k order h, l.counted);
}

-- The entries in the order of the keys: least recently used first.
unfoldable pub view : Items → List Text → Items
view items [] = []
view items (k ∷ ks) = elim (lookup k items) [
  | none ↦ view items ks
  | some e ↦ (k, e) ∷ view items ks
]

pub view-append :
    (items : Items) (xs ys : List Text) → view items (xs ++ ys) ≡ view items xs ++ view items ys
unfolding view
view-append items [] ys = refl
view-append items (x ∷ xs) ys = ground (arith, view-append items xs ys)

-- An entry whose key is not listed is not seen.
pub view-delete :
    (k : Text) (items : Items) (ks : List Text)
    → mem k ks ≡ false
    → view (delete k items) ks ≡ view items ks
unfolding view mem
view-delete k items [] h = refl
view-delete k items (j ∷ ks) h = ground (arith, view-delete k items ks, lookup-delete_ne k j items)

pub view-insert :
    (k : Text) (e : Entry) (items : Items) (ks : List Text)
    → mem k ks ≡ false
    → view (insert k e items) ks ≡ view items ks
unfolding view mem
view-insert k e items [] h = refl
view-insert k e items (j ∷ ks) h =
    ground (arith, view-insert k e items ks, lookup-insert k j e items)

lookup-view_absent :
    (k : Text) (items : Items) (ks : List Text) → mem k ks ≡ false → lookup k (view items ks) ≡ none
unfolding view mem lookup
lookup-view_absent k items [] h = refl
lookup-view_absent k items (j ∷ ks) h = ground (arith, lookup-view_absent k items ks)

lookup-view_present :
    (k : Text) (items : Items) (ks : List Text)
    → mem k ks ≡ true
    → lookup k (view items ks) ≡ lookup k items
unfolding view mem lookup
lookup-view_present k items [] h = absurd (cc)
lookup-view_present k items (j ∷ ks) h =
    ground (arith, lookup-view_present k items ks, lookup-view_absent k items ks)

pub view-delete-erase :
    (k : Text) (items : Items) (ks : List Text)
    → Distinct ks
    → view (delete k items) (erase k ks) ≡ delete k (view items ks)
unfolding view erase delete
view-delete-erase k items [] d = refl
view-delete-erase k items (j ∷ ks) d = ground (
  arith,
  view-delete-erase k items ks d.1,
  view-delete k items ks,
  lookup-delete_ne k j items,
  lookup-view_absent k items ks,
  delete_absent k (view items ks),
)

-- A lookup among the entries in order is a lookup in the map.
pub lookup-view :
    (k : Text) (order : List Text) (items : Items)
    → Linked order items
    → lookup k (view items order) ≡ lookup k items
lookup-view k order items l = elim (Bool-cases (mem k order)) [
  | inl e ↦ lookup-view_present k items order e
  | inr e ↦ ground (arith, lookup-view_absent k items order, lookup_absent k items, l.same k)
]

length-view_all :
    (items : Items) (ks : List Text)
    → ((k : Text) → mem k ks ≡ true → mem k (keys items) ≡ true)
    → length (view items ks) ≡ length ks
unfolding view mem
length-view_all items [] h = refl
length-view_all items (k ∷ ks) h =
    let (e, found) = lookup_of_mem k items (h k (ground arith)) in
    let rest = length-view_all items ks (λ j m. h j (ground arith)) in ground (arith, found, rest)

pub length-view :
    (order : List Text) (items : Items)
    → Linked order items
    → length (view items order) ≡ length items
length-view order items l = length-view_all items order (λ k m. sym (l.same k) ∙ m) ∙ l.counted
