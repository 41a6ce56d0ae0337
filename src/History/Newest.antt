-- ===== src/History/Newest.antt =====
-- The newest entries of the history, the oldest of them first.
use kaven_dns.History.Defs.{Entry, Store, list}
use kaven_dns.History.Runs.{IsNumbered, IsNumbered-append_right}
use kaven_dns.History.Search.{list_lem}
use kaven_dns.Prelude.{
  [], ◌∷◌, zero, suc, inl, inr, refl, pos, arith, ℕ, ◌≡◌, List, take_all, ◌≤◌, ltb→le, ltb→lt,
  length-drop, take-append-drop, sym, ltb, ◌∙◌, ◌-◌, ◌++◌, length-append, Bool-cases, take, length,
  drop, ap,
}
use mathlib.Core.List.{reverse, reverse-append, reverse-cons, reverse-reverse}
use mathlib.Core.Path.{subst}

length-reverse : (xs : List Entry) → length (reverse xs) ≡ length xs
length-reverse [] = refl
length-reverse (x ∷ xs) =
    rw (reverse-cons x xs) (omega (arith, length-append (reverse xs) (x ∷ []), length-reverse xs))

abbrev pub newest : ℕ → List Entry → List Entry
newest n es = drop (length es - n) es

take_front : (n : ℕ) (xs ys : List Entry) → length xs ≡ n → take n (xs ++ ys) ≡ xs
take_front zero [] ys h = refl
take_front (suc n) [] ys h = absurd (omega arith)
take_front zero (x ∷ xs) ys h = absurd (omega arith)
take_front (suc n) (x ∷ xs) ys h = ap (◌∷◌ x) (take_front n xs ys (omega arith))

pub newest_lem : (n : ℕ) (es : List Entry) → reverse (take n (reverse es)) ≡ newest n es
newest_lem n es = elim (Bool-cases (ltb n (length es))) [
  | inl h ↦
      let k = length es - n in
      let parts : reverse es ≡ reverse (drop k es) ++ reverse (take k es) =
        ap reverse (sym (take-append-drop k es)) ∙ reverse-append (take k es) (drop k es) in
      let size : length (reverse (drop k es)) ≡ n =
        omega (arith, length-reverse (drop k es), length-drop k es, ltb→lt n (length es) h) in
      ap (λ t. reverse (take n t)) parts
      ∙ ap reverse (take_front n (reverse (drop k es)) (reverse (take k es)) size)
      ∙ reverse-reverse (drop k es)
  | inr h ↦
      let whole : length es - n ≡ 0 = omega (arith, ltb→le n (length es) h) in
      let fits : length (reverse es) ≤ n =
        omega (arith, length-reverse es, ltb→le n (length es) h) in
      rw whole (ap reverse (take_all (reverse es) n fits) ∙ reverse-reverse es)
]

pub newest-IsNumbered :
    (n low high : ℕ) (es : List Entry) → IsNumbered low high es → IsNumbered low high (newest n es)
newest-IsNumbered n low high es up =
    IsNumbered-append_right low high (take (length es - n) es) (newest n es)
      (subst (IsNumbered low high) (sym (take-append-drop (length es - n) es)) up)

pub listed : (s : Store) → reverse (list s (pos 200)) ≡ newest 200 s.entries
listed s = ap reverse (list_lem s (pos 200)) ∙ newest_lem 200 s.entries
