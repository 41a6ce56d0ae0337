-- ===== src/Rules/Failures.antt =====
-- Why an operation of the store reports that it did not write the file.
use kaven_dns.Persist.{Outcome, remove_failed, write_json}
use kaven_dns.Prelude.{false, inl, inr, arith, ℕ, ◌≡◌, List, Text, ◌⊎◌, Option-cases}
use kaven_dns.Rules.Defs.{Rule, Store, persist, add, update, update_from, replace_all}

-- A write that fails at one of its calls.
abbrev pub Fails : Outcome → Type 0
Fails o =
    (o.made_directory ≡ false)
    ⊎ (o.encoded ≡ false)
    ⊎ (o.wrote ≡ false)
    ⊎ ((o.renamed ≡ false) × ((o.removal ≡ remove_failed) ⊎ (o.renamed_again ≡ false)))

persist-Fails : (o : Outcome) (s : Store) → (persist o s).1 ≡ false → Fails o
unfolding persist write_json
persist-Fails o s h = ground arith

pub add-Fails :
    (o : Outcome) (fresh : Text) (now : ℕ) (r : Rule) (s : Store)
    → (add o fresh now r s).2 ≡ false
    → Fails o
unfolding add
add-Fails o fresh now r s h = persist-Fails o _ h

pub update-Fails :
    (o : Outcome) (id : Text) (now : ℕ) (r : Rule) (s : Store)
    → (update o id now r s).2 ≡ false
    → Fails o
unfolding update
update-Fails o id now r s h = elim (Option-cases (update_from id now r s.rules)) [
  | inl e ↦ absurd (cc (rw (e, update) at h))
  | inr ((r', rs), e) ↦ persist-Fails o (record s { rules = rs }) (rw (e, update) at h)
]

pub replace_all-Fails :
    (o : Outcome) (items : List Rule) (s : Store) → (replace_all o items s).1 ≡ false → Fails o
unfolding replace_all
replace_all-Fails o items s h = persist-Fails o (record s { rules = items }) h
