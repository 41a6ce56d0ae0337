-- ===== src/Web/Import.antt =====
-- The import of rules, `importRules`.
use kaven_dns.Go.{join, itoa}
use kaven_dns.Persist.{Outcome}
use kaven_dns.Prelude.{
  none, some, [], ◌∷◌, true, false, ℕ, List, Text, Bool, Option, ◌==◌, codes, text_eq, ltb,
  is_empty, ◌+◌, ◌++◌, length, if◌then◌else◌,
}
use kaven_dns.Prelude.Assoc.{lookup, insert}
use kaven_dns.Rules.{Rule, Store, validate}
use kaven_dns.Rules.Validate.{Problem}
use kaven_dns.Rules

-- A rule that is valid, with an id and times.
unfoldable pub imported : ℕ → ℕ → Rule → Rule
unfolding itoa
imported now i r = record r {
  id = if is_empty r.id then codes "import-" ++ (itoa now ++ b'-' ∷ itoa i) else r.id;
  updated_at = now;
  created_at = if r.created_at == 0 then now else r.created_at;
}

-- What becomes of the rule at place `i`, as `Validate` returns it with its problems: it is valid, or its
-- place and its problems are kept. The text of the problem shows the place from 1, and the first problem.
unfoldable pub sifted :
    ℕ
    → ℕ
    → Rule × List Problem
    → List Rule × List (ℕ × List Problem)
    → List Rule × List (ℕ × List Problem)
unfolding imported
sifted now i (value, []) (valid, skipped) = (imported now i value ∷ valid, skipped)
sifted now i (value, p ∷ ps) (valid, skipped) = (valid, (i + 1, p ∷ ps) ∷ skipped)

-- The loop over the rules of the request, from the one at place `i`.
unfoldable pub sift : ℕ → ℕ → List Rule → List Rule × List (ℕ × List Problem)
unfolding sifted validate
sift now i [] = ([], [])
sift now i (item ∷ items) = sifted now i (validate item) (sift now (i + 1) items)

-- The order of texts by their bytes.
unfoldable pub text_leb : Text → Text → Bool
text_leb [] t = true
text_leb (c ∷ s) [] = false
text_leb (c ∷ s) (d ∷ t) = if ltb c d then true else if ltb d c then false else text_leb s t

unfoldable pub insert_sorted : Text → List Text → List Text
unfolding text_leb
insert_sorted t [] = t ∷ []
insert_sorted t (u ∷ us) = if text_leb t u then t ∷ u ∷ us else u ∷ insert_sorted t us

-- `sort.Strings`: an order that is total and antisymmetric has one sorted list.
unfoldable pub sort : List Text → List Text
unfolding insert_sorted
sort [] = []
sort (t ∷ ts) = insert_sorted t (sort ts)

unfoldable pub signature : Rule → Text
unfolding sort join
signature r = join (b'|' ∷ []) (sort r.domains) ++ (b':' ∷ b':' ∷ r.type)

-- The map of the rules that are there, by signature: a later one replaces an earlier one.
unfoldable pub by_signature : List Rule → List (Text × Rule) → List (Text × Rule)
unfolding signature insert
by_signature [] m = m
by_signature (r ∷ rs) m = by_signature rs (insert (signature r) r m)

-- What a round of the merge leads to: the store, and whether the rule was updated, or added; or the
-- store where a write failed.
pub data Round : Type 0 where
  updated_one : Store → Round
  added_one : Store → Round
  stopped : Store → Round

unfoldable pub round_of_update : Store × Option Rule × Bool → Round
round_of_update (s, _, true) = updated_one s
round_of_update (s, _, false) = stopped s

unfoldable pub round_of_add : Store × Rule × Bool → Round
round_of_add (s, _, true) = added_one s
round_of_add (s, _, false) = stopped s

unfoldable pub merge_one : Outcome → Text → ℕ → List (Text × Rule) → Rule → Store → Round
unfolding signature lookup round_of_update round_of_add kaven_dns.Rules.update kaven_dns.Rules.add
merge_one o fresh now existing item s = elim (lookup (signature item) existing) [
  | some current ↦ round_of_update (Rules.update o current.id now item s)
  | none ↦ round_of_add (Rules.add o fresh now item s)
]

-- The end of the merge: the store, with the numbers of rules added and updated unless a write failed.
abbrev pub Merged : Type 0
Merged = Store × Option (ℕ × ℕ)

-- The loop of the merge, from the write at number `i`.
unfoldable pub merge :
    (ℕ → Outcome) → (ℕ → Text) → ℕ → ℕ → List (Text × Rule) → List Rule → ℕ → ℕ → Store → Merged
unfolding merge_one
merge outcome fresh now i existing [] added updated s = (s, some (added, updated))
merge outcome fresh now i existing (item ∷ items) added updated s =
    let next = λ (a u : ℕ) (s' : Store). merge outcome fresh now (i + 1) existing items a u s' in
    elim (merge_one (outcome i) (fresh i) now existing item s) [
      | updated_one s' ↦ next added (updated + 1) s'
      | added_one s' ↦ next (added + 1) updated s'
      | stopped s' ↦ (s', none)
    ]

unfoldable pub replaced : List Rule → Store × Bool → Merged
replaced valid (s, true) = (s, some (length valid, 0))
replaced valid (s, false) = (s, none)

-- The import of the valid rules.
unfoldable pub import_valid : (ℕ → Outcome) → (ℕ → Text) → ℕ → Text → List Rule → Store → Merged
unfolding by_signature merge replaced kaven_dns.Rules.replace_all
import_valid outcome fresh now mode valid s =
    if text_eq mode (codes "replace")
    then replaced valid (Rules.replace_all (outcome 0) valid s)
    else merge outcome fresh now 0 (by_signature s.rules []) valid 0 0 s
