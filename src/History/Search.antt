-- ===== src/History/Search.antt =====
-- `Search` against its description: the entries that match, newest first, up to the limit.
use kaven_dns.History.Defs.{
  search, any_entry, search_limit, Store, list, matches, Filter, search_from, Entry,
}
use kaven_dns.Prelude.{
  none, some, [], ◌∷◌, zero, suc, true, false, inl, inr, refl, pos, negsuc, arith, ℕ, ◌≡◌, List,
  Text, Bool, Option, take_all, sym, ℤ, ltb→le, ltb→lt, append_assoc, ◌∙◌, length-append, ltb,
  Bool-cases, if◌then◌else◌, append-nil, ◌-◌, ◌≤◌, keep, ap, ◌++◌, take, length, ◌<◌, get_elem?,
}
use mathlib.Core.List.{reverse-append, reverse}

take-suc :
    {A : Type 0} (n : ℕ) (xs : List A) (x : A)
    → get_elem? xs n ≡ some x
    → take (suc n) xs ≡ take n xs ++ x ∷ []
take-suc n [] x h = absurd (cc)
take-suc zero (y ∷ ys) x h = ground (arith, h)
take-suc (suc n) (y ∷ ys) x h = ap (◌∷◌ y) (take-suc n ys x h)

get_elem?_below :
    {A : Type 0} (n : ℕ) (xs : List A) → n < length xs → (x : A) × (get_elem? xs n ≡ some x)
get_elem?_below n [] h = absurd (omega arith)
get_elem?_below zero (x ∷ xs) h = (x, refl)
get_elem?_below (suc n) (x ∷ xs) h = get_elem?_below n xs (omega arith)

pub reverse-concat : {A : Type 0} (xs : List A) (x : A) → reverse (xs ++ x ∷ []) ≡ x ∷ reverse xs
reverse-concat xs x = reverse-append xs (x ∷ [])

-- What the loop adds to the results so far.
found : (Entry → Bool) → ℕ → List Entry → List Entry
found p room es = take room (keep p (reverse es))

abbrev no_entries : List Entry
no_entries = []

take-nil : (n : ℕ) → take n no_entries ≡ []
take-nil zero = refl
take-nil (suc n) = refl

-- One more entry in front of those that are left.
found_next :
    (p : Entry → Bool) (room n : ℕ) (entries : List Entry) (e : Entry)
    → get_elem? entries n ≡ some e
    → found p room (take (suc n) entries)
      ≡ take room
          (if p e then e ∷ keep p (reverse (take n entries)) else keep p (reverse (take n entries)))
unfolding found
found_next p room n entries e h =
    rw (take-suc n entries e h, reverse-concat (take n entries) e) refl

search_from_next :
    (f : Filter) (limit : ℕ) (entries : List Entry) (n : ℕ) (out : List Entry) (e : Entry)
    → ltb (length out) limit ≡ true
    → get_elem? entries n ≡ some e
    → search_from f limit entries (suc n) out
      ≡ search_from f limit entries n (if matches f e then out ++ e ∷ [] else out)
unfolding search_from
search_from_next f limit entries n out e room at = rw (room, search_from, at) refl

found_one :
    (p : Entry → Bool) (limit n : ℕ) (entries out : List Entry) (e : Entry)
    → length out < limit
    → get_elem? entries n ≡ some e
    → (if p e then out ++ e ∷ [] else out)
        ++ found p (limit - length (if p e then out ++ e ∷ [] else out)) (take n entries)
      ≡ out ++ found p (limit - length out) (take (suc n) entries)
unfolding found
found_one p limit n entries out e room at = elim (Bool-cases (p e)) [
  | inl h ↦
      let one : limit - length out ≡ suc (limit - length (out ++ e ∷ [])) =
        omega (arith, length-append out (e ∷ [])) in
      rw (found_next p (limit - length out) n entries e at, h, one) (append_assoc out (e ∷ []) _)
  | inr h ↦ rw (found_next p (limit - length out) n entries e at, h) refl
]

room_left :
    (b : Bool) (limit : ℕ) (out : List Entry) (e : Entry)
    → length out < limit
    → length (if b then out ++ e ∷ [] else out) ≤ limit
room_left true limit out e h = omega (arith, length-append out (e ∷ []))
room_left false limit out e h = omega arith

search_from-found :
    (f : Filter) (limit : ℕ) (entries : List Entry) (n : ℕ) (out : List Entry)
    → n ≤ length entries
    → length out ≤ limit
    → search_from f limit entries n out
      ≡ out ++ found (matches f) (limit - length out) (take n entries)
unfolding search_from found
search_from-found f limit entries zero out h k =
    rw (take-nil (limit - length out), append-nil out) refl
search_from-found f limit entries (suc n) out h k = elim (Bool-cases (ltb (length out) limit)) [
  | inl e ↦
      let (x, at) = get_elem?_below n entries (omega arith) in
      let out' = if matches f x then out ++ x ∷ [] else out in
      search_from_next f limit entries n out x e at
      ∙ search_from-found f limit entries n out' (omega arith)
          (room_left (matches f x) limit out x (ltb→lt _ _ e))
      ∙ found_one (matches f) limit n entries out x (ltb→lt _ _ e) at
  | inr e ↦
      let full : limit - length out ≡ 0 = omega (arith, ltb→le _ _ e) in
      rw (e, search_from, full) (sym (append-nil out))
]

-- `Search` returns the entries that match, the newest first, up to the limit.
pub search_lem :
    (s : Store) (f : Filter)
    → search s f ≡ take (search_limit f.limit) (keep (matches f) (reverse s.entries))
unfolding search found
search_lem s f =
    let n = length s.entries in
    let all : take n s.entries ≡ s.entries = take_all s.entries n (omega arith) in
    let room : search_limit f.limit - 0 ≡ search_limit f.limit = omega arith in
    search_from-found f (search_limit f.limit) s.entries n [] (omega arith) (omega arith)
    ∙ rw (all, room) refl

-- Every entry passes the tests of a filter that asks for nothing.
keep_any : (limit : ℤ) (es : List Entry) → keep (matches (any_entry limit)) es ≡ es
unfolding matches kaven_dns.Go.to_lower kaven_dns.Go.trim_space kaven_dns.Prelude.Text-discrete
keep_any limit [] = refl
keep_any limit (e ∷ es) = ap (◌∷◌ e) (keep_any limit es)

-- `List` returns the newest entries, up to the limit.
pub list_lem :
    (s : Store) (limit : ℤ) → list s limit ≡ take (search_limit limit) (reverse s.entries)
unfolding list
list_lem s limit =
    search_lem s (any_entry limit)
    ∙ ap (take (search_limit limit)) (keep_any limit (reverse s.entries))
