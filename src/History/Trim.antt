-- ===== src/History/Trim.antt =====
-- What the trimming of the history drops, and what it keeps.
-- The first entry, if there is one, is not older than the limit.
use kaven_dns.History.Defs.{cutoff, Store, trim, drop_old, Entry}
use kaven_dns.Prelude.{
  append_assoc, [], ◌∷◌, true, false, inl, inr, refl, pos, arith, ℕ, ◌≡◌, List, append-nil, ◌∙◌, ℤ,
  sym, take, length-drop, length-take, take-append-drop, drop, ltb→le, ltb→lt, ◌⊎◌, ap, ltb, ltb_ℤ,
  Bool-cases, ◌<◌, ◌-◌, length, All, ◌≤◌, ◌++◌,
}

abbrev pub IsRecent : ℕ → List Entry → Type 0
IsRecent limit [] = Unit
IsRecent limit (e ∷ es) = limit ≤ e.time

drop_old-split :
    (limit : ℕ) (es : List Entry)
    → (old : List Entry) × (es ≡ old ++ drop_old limit es)
      × All (λ e. e.time < limit) old
      × IsRecent limit (drop_old limit es)
unfolding drop_old
drop_old-split limit [] = ([], refl, tt, tt)
drop_old-split limit (e ∷ es) = elim (Bool-cases (ltb e.time limit)) [
  | inl h ↦
      let (old, parts, all_old, recent) = drop_old-split limit es in
      (e ∷ old, rw h (ap (◌∷◌ e) parts), (ltb→lt _ _ h, all_old), rw h recent)
  | inr h ↦ ([], rw h refl, tt, rw h (ltb→le _ _ h))
]

drop_old-le : (limit : ℕ) (es : List Entry) → length (drop_old limit es) ≤ length es
unfolding drop_old
drop_old-le limit [] = omega arith
drop_old-le limit (e ∷ es) = ground (arith, drop_old-le limit es)

All-dated :
    (retention : ℤ) (limit : ℕ) (es : List Entry)
    → ltb_ℤ (pos 0) retention ≡ true
    → All (λ e. e.time < limit) es
    → All (λ e. (ltb_ℤ (pos 0) retention ≡ true) × (e.time < limit)) es
All-dated retention limit [] h a = tt
All-dated retention limit (e ∷ es) h (p, a) = ((h, p), All-dated retention limit es h a)

-- The trimming splits the entries in three: those in front that are more than the maximum, then those that are
-- older than the retention, then those that are kept. The first one kept is recent. Without a
-- retention nothing goes for its age.
pub trim_lem :
    (s : Store) (now : ℕ)
    → (over old : List Entry) × (s.entries ≡ over ++ old ++ (trim s now).entries)
      × (length over ≡ length s.entries - s.max_entries)
      × All (λ e. (ltb_ℤ (pos 0) s.retention ≡ true) × (e.time < cutoff s.retention now)) old
      × (length (trim s now).entries ≤ s.max_entries)
      × ((ltb_ℤ (pos 0) s.retention ≡ false)
          ⊎ IsRecent (cutoff s.retention now) (trim s now).entries)
unfolding trim
trim_lem s now =
    let extra = length s.entries - s.max_entries in
    let newest = drop extra s.entries in
    let limit = cutoff s.retention now in
    let halves = take-append-drop extra s.entries in
    let over_length = length-take extra s.entries in
    let room = length-drop extra s.entries in
    let (old, parts, all_old, recent) = drop_old-split limit newest in
    elim (Bool-cases (ltb_ℤ (pos 0) s.retention)) [
      | inl h ↦ (
        take extra s.entries,
        old,
        rw (h, append_assoc (take extra s.entries) old (drop_old limit newest))
            (sym halves ∙ ap (◌++◌ (take extra s.entries)) parts),
        omega arith,
        All-dated s.retention limit old h all_old,
        rw h (omega (arith, drop_old-le limit newest)),
        rw h (inr recent),
      )
      | inr h ↦ (
        take extra s.entries,
        [],
        rw (h, append-nil (take extra s.entries)) (sym halves),
        omega arith,
        tt,
        rw h (omega arith),
        inl h,
      )
    ]
