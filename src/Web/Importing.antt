-- ===== src/Web/Importing.antt =====
-- What an import of rules adds, updates and skips.
use kaven_dns.Go.{itoa}
use kaven_dns.Persist.{Outcome}
use kaven_dns.Prelude.{
  none, some, [], ◌∷◌, suc, true, false, inl, inr, refl, arith, ℕ, ◌≡◌, List, Text, Bool, Option,
  ◌==◌, ◌++◌, codes, is_empty, if◌then◌else◌, ◌∙◌, ◌⊎◌, Option-cases, ◌+◌, length,
}
use kaven_dns.Prelude.Assoc.{lookup}
use kaven_dns.Rules.{Problem, validate, Rule, Store}
use kaven_dns.Rules.Accepted.{IsAccepted}
use kaven_dns.Rules.Accepting.{
  bad, good, Checked, validate-Checked, AllAccepted, add-AllAccepted, update-AllAccepted,
  like-IsAccepted,
}
use kaven_dns.Rules.Failures.{update-Fails, add-Fails, Fails}
use kaven_dns.Web.Import.{
  sifted, signature, stopped, added_one, updated_one, merge, imported, sift, round_of_update,
  round_of_add, merge_one, Round, Merged,
}
use kaven_dns.Rules

sifted-AllAccepted :
    (now i n : ℕ) (x : Rule × List Problem) (rest : List Rule × List (ℕ × List Problem))
    → Checked x
    → AllAccepted rest.0
    → length rest.0 + length rest.1 ≡ n
    → AllAccepted (sifted now i x rest).0
      × (length (sifted now i x rest).0 + length (sifted now i x rest).1 ≡ suc n)
unfolding sifted imported
sifted-AllAccepted now i n x rest (good r a) all count =
    let id = if is_empty r.id then codes "import-" ++ (itoa now ++ b'-' ∷ itoa i) else r.id in
    let created_at = if r.created_at == 0 then now else r.created_at in
    ((like-IsAccepted r id created_at now a, all), omega (arith, count))
sifted-AllAccepted now i n x rest (bad r p ps) all count = (all, omega (arith, count))

-- Each rule of the request is either valid or skipped.
pub sift-AllAccepted :
    (now i : ℕ) (items : List Rule)
    → AllAccepted (sift now i items).0
      × (length (sift now i items).0 + length (sift now i items).1 ≡ length items)
unfolding sift
sift-AllAccepted now i [] = (tt, refl)
sift-AllAccepted now i (item ∷ items) =
    let (all, count) = sift-AllAccepted now (i + 1) items in
    sifted-AllAccepted now i (length items) (validate item) (sift now (i + 1) items)
      (validate-Checked item) all count

-- The number of rules that `Validate` finds a problem with.
abbrev pub faulty : List Rule → ℕ
faulty [] = 0
faulty (r ∷ rs) = elim (validate r).1 [ [] ↦ faulty rs | _ ∷ _ ↦ faulty rs + 1 ]

sifted-faulty :
    (now i n : ℕ) (x : Rule × List Problem) (rest : List Rule × List (ℕ × List Problem))
    → length rest.1 ≡ n
    → length (sifted now i x rest).1 ≡ elim x.1 [ [] ↦ n | _ ∷ _ ↦ n + 1 ]
unfolding sifted
sifted-faulty now i n (r, []) rest h = h
sifted-faulty now i n (r, p ∷ ps) rest h = omega (arith, h)

-- The rules that are skipped are the faulty ones.
pub sift-faulty : (now i : ℕ) (items : List Rule) → length (sift now i items).1 ≡ faulty items
unfolding sift
sift-faulty now i [] = refl
sift-faulty now i (item ∷ items) =
    sifted-faulty now i (faulty items) (validate item) (sift now (i + 1) items)
      (sift-faulty now (i + 1) items)

-- What a round or a merge leaves: accepted rules, and as many as before and `added` more.
abbrev pub Grown : Store → ℕ → Store → Type 0
Grown s added s' = AllAccepted s'.rules × (length s'.rules ≡ length s.rules + added)

pub data Rounded (o : Outcome) (s : Store) : Round → Type 0 where
  updating : (s' : Store) → Grown s 0 s' → Rounded o s (updated_one s')
  adding : (s' : Store) → Grown s 1 s' → Rounded o s (added_one s')
  stopping : (s' : Store) → AllAccepted s'.rules → Fails o → Rounded o s (stopped s')

round_of_update-Rounded :
    (o : Outcome) (s : Store) (x : Store × Option Rule × Bool)
    → Grown s 0 x.0
    → (x.2 ≡ false → Fails o)
    → Rounded o s (round_of_update x)
unfolding round_of_update
round_of_update-Rounded o s (s', r, true) g f = updating s' g
round_of_update-Rounded o s (s', r, false) g f = stopping s' g.0 (f refl)

round_of_add-Rounded :
    (o : Outcome) (s : Store) (x : Store × Rule × Bool)
    → Grown s 1 x.0
    → (x.2 ≡ false → Fails o)
    → Rounded o s (round_of_add x)
unfolding round_of_add
round_of_add-Rounded o s (s', r, true) g f = adding s' g
round_of_add-Rounded o s (s', r, false) g f = stopping s' g.0 (f refl)

merge_one-Rounded :
    (o : Outcome) (fresh : Text) (now : ℕ) (existing : List (Text × Rule)) (item : Rule) (s : Store)
    → AllAccepted s.rules
    → IsAccepted item
    → Rounded o s (merge_one o fresh now existing item s)
unfolding merge_one
merge_one-Rounded o fresh now existing item s all a =
    elim (Option-cases (lookup (signature item) existing)) [
      | inl h ↦
          rw (h, merge_one)
            (round_of_add-Rounded o s (Rules.add o fresh now item s)
              (add-AllAccepted o fresh now item s all a) (add-Fails o fresh now item s))
      | inr (current, h) ↦
          rw (h, merge_one)
            (round_of_update-Rounded o s (Rules.update o current.id now item s)
              (let (kept, same) = update-AllAccepted o current.id now item s all a in
                (kept, same ∙ omega arith))
              (update-Fails o current.id now item s))
    ]

Rounded-cases :
    (o : Outcome) (s : Store) (r : Round)
    → Rounded o s r
    → ((s' : Store) × (r ≡ updated_one s') × Grown s 0 s')
      ⊎ ((s' : Store) × (r ≡ added_one s') × Grown s 1 s')
      ⊎ ((s' : Store) × (r ≡ stopped s') × AllAccepted s'.rules × Fails o)
Rounded-cases o s r (updating s' g) = inl (s', refl, g)
Rounded-cases o s r (adding s' g) = inr (inl (s', refl, g))
Rounded-cases o s r (stopping s' all f) = inr (inr (s', refl, all, f))

-- The end of a merge that starts with the counts `added` and `updated`, over `left` rules: the store has grown
-- by the rules that were added, and each rule was added or updated; or a write
-- failed.
pub data IsMerged (outcome : ℕ → Outcome) (s : Store) (left added updated : ℕ)
    : Merged → Type 0 where
  finished :
      (s' : Store) (a u : ℕ)
      → AllAccepted s'.rules
      → length s'.rules + added ≡ length s.rules + a
      → added + updated + left ≡ a + u
      → IsMerged outcome s left added updated (s', some (a, u))
  broken :
      (s' : Store) (i : ℕ)
      → AllAccepted s'.rules
      → Fails (outcome i)
      → IsMerged outcome s left added updated (s', none)

after_update :
    (outcome : ℕ → Outcome) (s s' : Store) (left added updated : ℕ) (m : Merged)
    → length s'.rules ≡ length s.rules + 0
    → IsMerged outcome s' left added (updated + 1) m
    → IsMerged outcome s (suc left) added updated m
after_update outcome s s' left added updated m same (finished s₁ a u all grown total) =
    finished s₁ a u all (omega (arith, grown, same)) (omega (arith, total))
after_update outcome s s' left added updated m same (broken s₁ i all f) = broken s₁ i all f

after_add :
    (outcome : ℕ → Outcome) (s s' : Store) (left added updated : ℕ) (m : Merged)
    → length s'.rules ≡ length s.rules + 1
    → IsMerged outcome s' left (added + 1) updated m
    → IsMerged outcome s (suc left) added updated m
after_add outcome s s' left added updated m same (finished s₁ a u all grown total) =
    finished s₁ a u all (omega (arith, grown, same)) (omega (arith, total))
after_add outcome s s' left added updated m same (broken s₁ i all f) = broken s₁ i all f

module _ (outcome : ℕ → Outcome) (fresh : ℕ → Text) (now : ℕ) (existing : List (Text × Rule)) where
  pub merge-IsMerged :
      (i : ℕ) (items : List Rule) (added updated : ℕ) (s : Store)
      → AllAccepted s.rules
      → AllAccepted items
      → IsMerged outcome s
          (length items)
          added
          updated
          (merge outcome fresh now i existing items added updated s)
  unfolding merge
  merge-IsMerged i [] added updated s all valid = finished s added updated all refl (omega arith)
  merge-IsMerged i (item ∷ items) added updated s all (a, valid) =
      let n = length items in
      let round = merge_one-Rounded (outcome i) (fresh i) now existing item s all a in
      elim (Rounded-cases (outcome i) s (merge_one (outcome i) (fresh i) now existing item s)
        round) [
          | inl (s', e, (kept, same)) ↦
              rw (e, merge)
                (after_update outcome s s' n added updated
                  (merge outcome fresh now (i + 1) existing items added (updated + 1) s') same
                  (merge-IsMerged (i + 1) items added (updated + 1) s' kept valid))
          | inr (inl (s', e, (kept, same))) ↦
              rw (e, merge)
                (after_add outcome s s' n added updated
                  (merge outcome fresh now (i + 1) existing items (added + 1) updated s') same
                  (merge-IsMerged (i + 1) items (added + 1) updated s' kept valid))
          | inr (inr (s', e, kept, f)) ↦ rw (e, merge) (broken s' i kept f)
        ]
