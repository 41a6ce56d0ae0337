-- ===== src/Prelude/Assoc.antt =====
-- Lists of texts, and Go maps with string keys as association lists. A map built by `insert` and
-- `delete` holds no key twice.
use kaven_dns.Prelude.{
  ◌≤◌, ℕ, zero, suc, drop, ◌+◌, ◌≡◌, refl, ◌≢◌, Bool, true, false, ◌||◌, Option, none, some, List,
  [], ◌∷◌, ◌++◌, arith, Text, text_eq, Text-discrete, length, if◌then◌else◌,
}

unfoldable pub mem : Text → List Text → Bool
mem k [] = false
mem k (j ∷ js) = if text_eq j k then true else mem k js

-- Drops the first occurrence.
unfoldable pub erase : Text → List Text → List Text
erase k [] = []
erase k (j ∷ js) = if text_eq j k then js else j ∷ erase k js

abbrev pub Distinct : List Text → Type 0
Distinct [] = Unit
Distinct (k ∷ ks) = (mem k ks ≡ false) × Distinct ks

pub mem-append : (k : Text) (xs ys : List Text) → mem k (xs ++ ys) ≡ mem k xs || mem k ys
unfolding mem
mem-append k [] ys = refl
mem-append k (x ∷ xs) ys = ground (arith, mem-append k xs ys)

pub mem-erase_ne : (k j : Text) (xs : List Text) → j ≢ k → mem j (erase k xs) ≡ mem j xs
unfolding mem erase
mem-erase_ne k j [] h = refl
mem-erase_ne k j (x ∷ xs) h = ground (arith, mem-erase_ne k j xs h)

pub mem-erase_self : (k : Text) (xs : List Text) → Distinct xs → mem k (erase k xs) ≡ false
unfolding mem erase
mem-erase_self k [] d = refl
mem-erase_self k (x ∷ xs) d = ground (arith, mem-erase_self k xs d.1)

pub erase_absent : (k : Text) (xs : List Text) → mem k xs ≡ false → erase k xs ≡ xs
unfolding mem erase
erase_absent k [] h = refl
erase_absent k (x ∷ xs) h = ground (arith, erase_absent k xs)

pub length-erase :
    (k : Text) (xs : List Text) → mem k xs ≡ true → length (erase k xs) + 1 ≡ length xs
unfolding mem erase
length-erase k [] h = absurd (cc)
length-erase k (x ∷ xs) h = ground (arith, length-erase k xs)

pub length-erase-le : (k : Text) (xs : List Text) → length (erase k xs) ≤ length xs
unfolding erase
length-erase-le k [] = omega arith
length-erase-le k (x ∷ xs) = ground (arith, length-erase-le k xs)

pub erase-Distinct : (k : Text) (xs : List Text) → Distinct xs → Distinct (erase k xs)
unfolding erase
erase-Distinct k [] d = tt
erase-Distinct k (x ∷ xs) d = ground (arith, erase-Distinct k xs d.1, mem-erase_ne k x xs)

pub concat-Distinct :
    (k : Text) (xs : List Text) → Distinct xs → mem k xs ≡ false → Distinct (xs ++ k ∷ [])
unfolding mem
concat-Distinct k [] d h = (refl, tt)
concat-Distinct k (x ∷ xs) d h = ground (arith, concat-Distinct k xs d.1, mem-append x xs (k ∷ []))

module _ {ℓ} {V : Type ℓ} where
  abbrev pub keys : List (Text × V) → List Text
  keys [] = []
  keys ((k, _) ∷ m) = k ∷ keys m

  -- `m[k]`
  unfoldable pub lookup : Text → List (Text × V) → Option V
  lookup k [] = none
  lookup k ((j, held) ∷ rest) = if text_eq j k then some held else lookup k rest

  -- `delete(m, k)`
  unfoldable pub delete : Text → List (Text × V) → List (Text × V)
  delete k [] = []
  delete k ((j, v) ∷ m) = if text_eq j k then m else (j, v) ∷ delete k m

  -- `m[k] = v`
  unfoldable pub insert : Text → V → List (Text × V) → List (Text × V)
  insert k new [] = (k, new) ∷ []
  insert k new ((j, old) ∷ rest) =
      if text_eq j k then (k, new) ∷ rest else (j, old) ∷ insert k new rest

  pub lookup-insert :
      (k j : Text) (new : V) (m : List (Text × V))
      → lookup j (insert k new m)
        ≡ elim (Text-discrete k j) [ yes _ ↦ some new | no _ ↦ lookup j m ]
  unfolding insert lookup
  lookup-insert k j new [] = ground arith
  lookup-insert k j new ((_, held) ∷ rest) = ground (arith, lookup-insert k j new rest)

  pub lookup-insert_self :
      (k : Text) (v : V) (m : List (Text × V)) → lookup k (insert k v m) ≡ some v
  lookup-insert_self k v m = ground (arith, lookup-insert k k v m)

  pub lookup-insert_ne :
      (k j : Text) (v : V) (m : List (Text × V)) → j ≢ k → lookup j (insert k v m) ≡ lookup j m
  lookup-insert_ne k j v m h = ground (arith, lookup-insert k j v m)

  pub keys-delete : (k : Text) (m : List (Text × V)) → keys (delete k m) ≡ erase k (keys m)
  unfolding delete erase
  keys-delete k [] = refl
  keys-delete k ((j, v) ∷ m) = ground (arith, keys-delete k m)

  pub lookup-delete_ne :
      (k j : Text) (m : List (Text × V)) → j ≢ k → lookup j (delete k m) ≡ lookup j m
  unfolding lookup delete
  lookup-delete_ne k j [] h = refl
  lookup-delete_ne k j ((i, v) ∷ m) h = ground (arith, lookup-delete_ne k j m h)

  pub lookup_absent : (k : Text) (m : List (Text × V)) → mem k (keys m) ≡ false → lookup k m ≡ none
  unfolding lookup mem
  lookup_absent k [] h = refl
  lookup_absent k ((i, v) ∷ m) h = ground (arith, lookup_absent k m)

  pub mem_of_lookup :
      (k : Text) (m : List (Text × V)) (v : V) → lookup k m ≡ some v → mem k (keys m) ≡ true
  unfolding lookup mem
  mem_of_lookup k [] v h = absurd (cc)
  mem_of_lookup k ((i, w) ∷ m) v h = ground (arith, mem_of_lookup k m v)

  pub lookup_of_mem :
      (k : Text) (m : List (Text × V)) → mem k (keys m) ≡ true → (v : V) × (lookup k m ≡ some v)
  unfolding lookup mem
  lookup_of_mem k [] h = absurd (cc)
  lookup_of_mem k ((i, v) ∷ m) h = elim (Text-discrete i k) [
    | yes p ↦ (v, ground arith)
    | no p ↦ let (w, found) = lookup_of_mem k m (ground arith) in (w, ground arith)
  ]

  pub lookup-delete_self :
      (k : Text) (m : List (Text × V)) → Distinct (keys m) → lookup k (delete k m) ≡ none
  unfolding lookup delete
  lookup-delete_self k [] d = refl
  lookup-delete_self k ((i, v) ∷ m) d =
      ground (arith, lookup-delete_self k m d.1, lookup_absent k m)

  pub delete_absent : (k : Text) (m : List (Text × V)) → lookup k m ≡ none → delete k m ≡ m
  unfolding lookup delete
  delete_absent k [] h = refl
  delete_absent k ((i, v) ∷ m) h = ground (arith, delete_absent k m)

  pub insert_new :
      (k : Text) (v : V) (m : List (Text × V)) → lookup k m ≡ none → insert k v m ≡ m ++ (k, v) ∷ []
  unfolding lookup insert
  insert_new k v [] h = refl
  insert_new k v ((i, w) ∷ m) h = ground (arith, insert_new k v m)

  pub keys-append : (m n : List (Text × V)) → keys (m ++ n) ≡ keys m ++ keys n
  keys-append [] n = refl
  keys-append ((k, v) ∷ m) n = cc (keys-append m n)

  pub length-keys : (m : List (Text × V)) → length (keys m) ≡ length m
  length-keys [] = refl
  length-keys ((k, v) ∷ m) = omega (arith, length-keys m)

  pub absent_of_lookup :
      (k : Text) (m : List (Text × V)) → lookup k m ≡ none → mem k (keys m) ≡ false
  unfolding lookup mem
  absent_of_lookup k [] h = refl
  absent_of_lookup k ((i, v) ∷ m) h = ground (arith, absent_of_lookup k m)

  pub lookup-drop_absent :
      (k : Text) (n : ℕ) (m : List (Text × V)) → lookup k m ≡ none → lookup k (drop n m) ≡ none
  unfolding lookup
  lookup-drop_absent k zero m h = h
  lookup-drop_absent k (suc n) [] h = refl
  lookup-drop_absent k (suc n) ((i, v) ∷ m) h = lookup-drop_absent k n m (ground arith)

  pub lookup-append :
      (k : Text) (m n : List (Text × V))
      → lookup k (m ++ n) ≡ elim (lookup k m) [ none ↦ lookup k n | some v ↦ some v ]
  unfolding lookup
  lookup-append k [] n = refl
  lookup-append k ((i, v) ∷ m) n = ground (arith, lookup-append k m n)
