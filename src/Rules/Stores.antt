-- ===== src/Rules/Stores.antt =====
-- The store: which rule each operation changes, and what reaches the file.
-- `old` is the first rule with the id, between `before` and `after`.
use kaven_dns.Persist.{Outcome}
use kaven_dns.Persist.Write.{write_json_ok}
use kaven_dns.Prelude.{
  Bool-cases, none, some, [], ◌∷◌, true, false, inl, inr, refl, arith, ℕ, ◌≡◌, List, Text, ap,
  Text-discrete, ◌⊎◌, ◌≢◌, ◌++◌, is_empty, All,
}
use kaven_dns.Rules.Defs.{
  stamp, replace_all, renew, update, remove, update_from, remove_from, persist, add, Store, Rule,
}

pub record IsFirst (id : Text) (rules before : List Rule) (old : Rule) (after : List Rule)
    : Type 0 where
  pub split : rules ≡ before ++ old ∷ after
  pub none_before : All (λ r. r.id ≢ id) before
  pub same_id : old.id ≡ id

update_from-cases :
    (id : Text) (now : ℕ) (rule : Rule) (rs : List Rule)
    → ((update_from id now rule rs ≡ none) × All (λ r. r.id ≢ id) rs)
      ⊎ ((before : List Rule) × (old : Rule) × (after : List Rule) × IsFirst id rs before old after
          × (update_from id now rule rs
              ≡ some (renew id now old rule, before ++ renew id now old rule ∷ after)))
unfolding update_from
update_from-cases id now rule [] = inl (refl, tt)
update_from-cases id now rule (r ∷ rs) = elim (Text-discrete r.id id) [
  | yes e ↦
      inr ([], r, rs, record { split = refl; none_before = tt; same_id = e }, ground (arith, e))
  | no e ↦ elim (update_from-cases id now rule rs) [
    | inl (h, absent) ↦ inl (ground (arith, e, h), (e, absent))
    | inr (before, old, after, first, h) ↦ inr (
      r ∷ before,
      old,
      after,
      record {
        split = ap (◌∷◌ r) first.split;
        none_before = (e, first.none_before);
        same_id = first.same_id;
      },
      ground (arith, e, h),
    )
  ]
]

remove_from-cases :
    (id : Text) (rs : List Rule)
    → ((remove_from id rs ≡ none) × All (λ r. r.id ≢ id) rs)
      ⊎ ((before : List Rule) × (old : Rule) × (after : List Rule) × IsFirst id rs before old after
          × (remove_from id rs ≡ some (before ++ after)))
unfolding remove_from
remove_from-cases id [] = inl (refl, tt)
remove_from-cases id (r ∷ rs) = elim (Text-discrete r.id id) [
  | yes e ↦
      inr ([], r, rs, record { split = refl; none_before = tt; same_id = e }, ground (arith, e))
  | no e ↦ elim (remove_from-cases id rs) [
    | inl (h, absent) ↦ inl (ground (arith, e, h), (e, absent))
    | inr (before, old, after, first, h) ↦ inr (
      r ∷ before,
      old,
      after,
      record {
        split = ap (◌∷◌ r) first.split;
        none_before = (e, first.none_before);
        same_id = first.same_id;
      },
      ground (arith, e, h),
    )
  ]
]

pub rules-persist : (o : Outcome) (s : Store) → (persist o s).0.rules ≡ s.rules
unfolding persist
rules-persist o s = ground arith

-- A store with a file, whose file holds its rules.
abbrev pub IsSaved : Store → Type 0
IsSaved s = s.disk.file ≡ some s.rules

persist-IsSaved :
    (o : Outcome) (s : Store)
    → is_empty s.path ≡ false
    → (persist o s).1 ≡ true
    → IsSaved (persist o s).0
unfolding persist
persist-IsSaved o s p h = ground (arith, p, write_json_ok o s.rules s.disk)

module _ (o : Outcome) (s : Store) (now : ℕ) where
  -- `Update` replaces the first rule with the id by the given one, under the same id and with the same
  -- time of creation, and leaves every other rule in its place. If no rule has the id it changes nothing and
  -- reports that it found none.
  pub update_lem :
      (id : Text) (rule : Rule)
      → ((update o id now rule s ≡ (s, none, true)) × All (λ r. r.id ≢ id) s.rules)
        ⊎ ((before : List Rule) × (old : Rule) × (after : List Rule) × IsFirst id s.rules before old
              after
            × ((update o id now rule s).1
                ≡ some (record rule { id = id; created_at = old.created_at; updated_at = now }))
            × ((update o id now rule s).0.rules
                ≡ before
                  ++ record rule { id = id; created_at = old.created_at; updated_at = now }
                    ∷ after))
  unfolding update renew
  update_lem id rule = elim (update_from-cases id now rule s.rules) [
    | inl (h, absent) ↦ inl (ground (arith, h), absent)
    | inr (before, old, after, first, h) ↦ inr (
      before,
      old,
      after,
      first,
      ground (arith, h),
      ground (
        arith,
        h,
        rules-persist o (record s { rules = before ++ renew id now old rule ∷ after }),
      ),
    )
  ]

module _ (o : Outcome) (s : Store) where
  -- `Remove` cuts out the first rule with the id and leaves every other rule in its place. If no rule
  -- has the id it changes nothing and reports that it found none.
  pub remove_lem :
      (id : Text)
      → ((remove o id s ≡ (s, false, true)) × All (λ r. r.id ≢ id) s.rules)
        ⊎ ((before : List Rule) × (old : Rule) × (after : List Rule) × IsFirst id s.rules before old
              after
            × ((remove o id s).1 ≡ true)
            × ((remove o id s).0.rules ≡ before ++ after))
  unfolding remove
  remove_lem id = elim (remove_from-cases id s.rules) [
    | inl (h, absent) ↦ inl (ground (arith, h), absent)
    | inr (before, old, after, first, h) ↦ inr (
      before,
      old,
      after,
      first,
      ground (arith, h),
      ground (arith, h, rules-persist o (record s { rules = before ++ after })),
    )
  ]

persist-report :
    (o : Outcome) (s : Store)
    → is_empty s.path ≡ false
    → ((persist o s).1 ≡ false) ⊎ IsSaved (persist o s).0
persist-report o s p = elim (Bool-cases (persist o s).1) [
  | inl e ↦ inr (persist-IsSaved o s p e)
  | inr e ↦ inl e
]

-- In a store with a file that holds the rules in memory, every operation that changes the rules
-- either reports that it could not write the file, or leaves the file with the rules in memory.
pub saved_lem :
    (o : Outcome) (s : Store) (now : ℕ) (fresh id : Text) (rule : Rule) (items : List Rule)
    → is_empty s.path ≡ false
    → IsSaved s
    → (((add o fresh now rule s).2 ≡ false) ⊎ IsSaved (add o fresh now rule s).0)
      × (((update o id now rule s).2 ≡ false) ⊎ IsSaved (update o id now rule s).0)
      × (((remove o id s).2 ≡ false) ⊎ IsSaved (remove o id s).0)
      × (((replace_all o items s).1 ≡ false) ⊎ IsSaved (replace_all o items s).0)
unfolding add update remove replace_all
saved_lem o s now fresh id rule items p k = (
  persist-report o (record s { rules = s.rules ++ stamp fresh now rule ∷ [] }) p,
  elim (update_from-cases id now rule s.rules) [
    | inl (h, absent) ↦ rw (h, update) (inr k)
    | inr (before, old, after, first, h) ↦
        rw (h, update)
          (persist-report o (record s { rules = before ++ renew id now old rule ∷ after }) p)
  ],
  elim (remove_from-cases id s.rules) [
    | inl (h, absent) ↦ rw (h, remove) (inr k)
    | inr (before, old, after, first, h) ↦
        rw (h, remove) (persist-report o (record s { rules = before ++ after }) p)
  ],
  persist-report o (record s { rules = items }) p,
)
