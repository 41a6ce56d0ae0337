-- ===== src/Web/Streaming.antt =====
-- A stream of events shows every query once, in the order of their numbers.
use kaven_dns.History.Defs.{Entry, Store, list, record_entry, numbered}
use kaven_dns.History.Newest.{newest, newest-IsNumbered, listed}
use kaven_dns.History.Runs.{
  Call, record_call, reset_call, set_limits_call, apply, after_calls, IsNumbered, IsValid,
  IsNumbered-le, IsNumbered-lower, apply-IsValid, sequence-apply, after_calls-IsValid,
}
use kaven_dns.Prelude.{
  [], ◌∷◌, suc, true, inl, inr, refl, arith, ℕ, ◌≡◌, List, Bool, ◌^◌, ◌<◌, sym, ltb→lt, ◌∙◌, ◌+◌,
  lt→ltb, Bool-cases, ◌≤◌, ◌++◌, ltb, length, keep, ap,
}
use kaven_dns.Web.Events.{additions, new_entries}

abbrev pub is_above : ℕ → Entry → Bool
is_above latest e = ltb latest e.sequence

-- Entries numbered from above `latest` are all above it.
keep_all :
    (latest low high : ℕ) (es : List Entry)
    → latest ≤ low
    → IsNumbered low high es
    → keep (is_above latest) es ≡ es
keep_all latest low high [] h up = refl
keep_all latest low high (e ∷ es) h (first, up) =
    let above : ltb latest e.sequence ≡ true = lt→ltb latest e.sequence (omega arith) in
    rw above (ap (◌∷◌ e) (keep_all latest e.sequence high es (omega (arith, first)) up))

additions_above :
    (low high latest : ℕ) (es : List Entry)
    → IsNumbered low high es
    → (additions latest es).0 ≡ keep (is_above latest) es
unfolding additions
additions_above low high latest [] up = refl
additions_above low high latest (e ∷ es) (first, up) = elim (Bool-cases (ltb latest e.sequence)) [
  | inl h ↦ rw h (
      ap (◌∷◌ e) (
        additions_above e.sequence high e.sequence es up
        ∙ keep_all e.sequence e.sequence high es (omega arith) up
        ∙ sym (keep_all latest e.sequence high es (omega (arith, ltb→lt latest e.sequence h)) up)))
  | inr h ↦ rw h (additions_above e.sequence high latest es up)
]

-- The highest number so far after the loop: it does not fall, and stays within the numbers of the store.
additions_latest :
    (low high latest : ℕ) (es : List Entry)
    → IsNumbered low high es
    → latest ≤ high
    → IsNumbered latest (additions latest es).1 (additions latest es).0
      × ((additions latest es).1 ≤ high)
unfolding additions
additions_latest low high latest [] up h = (omega arith, h)
additions_latest low high latest (e ∷ es) (first, up) h =
    elim (Bool-cases (ltb latest e.sequence)) [
      | inl g ↦
          let (more, within) =
            additions_latest e.sequence high e.sequence es up
              (IsNumbered-le e.sequence high es up) in
          rw g ((ltb→lt latest e.sequence g, more), within)
      | inr g ↦ rw g (additions_latest e.sequence high latest es up h)
    ]

new_entries_lem :
    (latest : ℕ) (s : Store) → new_entries latest s ≡ additions latest (newest 200 s.entries)
unfolding new_entries
new_entries_lem latest s = ap (additions latest) (listed s)

-- Of a history that is well-formed, a tick shows, in order, those of the newest 200 entries whose number is
-- above the highest that was shown.
pub new_entries-keep :
    (latest : ℕ) (s : Store)
    → IsValid s
    → (new_entries latest s).0 ≡ keep (is_above latest) (newest 200 s.entries)
new_entries-keep latest s (_, _, up) = rw (new_entries_lem latest s) (
    additions_above 0 s.sequence latest (newest 200 s.entries)
      (newest-IsNumbered 200 0 s.sequence s.entries up))

new_entries-IsNumbered :
    (latest : ℕ) (s : Store)
    → IsValid s
    → latest ≤ s.sequence
    → IsNumbered latest (new_entries latest s).1 (new_entries latest s).0
      × ((new_entries latest s).1 ≤ s.sequence)
new_entries-IsNumbered latest s (_, _, up) h = rw (new_entries_lem latest s) (
    additions_latest 0 s.sequence latest (newest 200 s.entries)
      (newest-IsNumbered 200 0 s.sequence s.entries up) h)

-- What happens while a stream is open: a call of the history, or a tick.
pub data Step : Type 0 where
  called : Call → Step
  ticked : Step

-- What a stream shows over such steps.
unfoldable pub shown : List Step → ℕ → Store → List Entry
shown [] latest s = []
shown (called c ∷ steps) latest s = shown steps latest (apply c s)
shown (ticked ∷ steps) latest s =
    let (entries, next) = new_entries latest s in entries ++ shown steps next s

IsNumbered-append :
    (low mid high : ℕ) (xs ys : List Entry)
    → IsNumbered low mid xs
    → IsNumbered mid high ys
    → IsNumbered low high (xs ++ ys)
IsNumbered-append low mid high [] ys h g = IsNumbered-lower mid low high ys h g
IsNumbered-append low mid high (x ∷ xs) ys (first, h) g =
    (first, IsNumbered-append x.sequence mid high xs ys h g)

IsNumbered-raise :
    (low high high' : ℕ) (es : List Entry)
    → high ≤ high'
    → IsNumbered low high es
    → IsNumbered low high' es
IsNumbered-raise low high high' [] k h = omega arith
IsNumbered-raise low high high' (e ∷ es) k (first, h) =
    (first, IsNumbered-raise e.sequence high high' es k h)

sequence_kept : (c : Call) (s : Store) → s.sequence + 1 < 2 ^ 64 → s.sequence ≤ (apply c s).sequence
unfolding apply record_entry kaven_dns.History.Defs.reset kaven_dns.History.Defs.set_limits
    kaven_dns.History.Defs.trim
sequence_kept (record_call e now now') s h = omega arith
sequence_kept (reset_call now) s h = omega arith
sequence_kept (set_limits_call max retention now) s h = omega arith

-- Whatever calls the history gets between the ticks, up to 2^64 - 1 since its sequence began, a stream
-- shows no entry twice: the numbers of all that it shows strictly ascend, from above the highest that was
-- shown when it opened.
pub shown-IsNumbered :
    (steps : List Step) (latest : ℕ) (s : Store)
    → IsValid s
    → latest ≤ s.sequence
    → s.sequence + length steps < 2 ^ 64
    → IsNumbered latest (s.sequence + length steps) (shown steps latest s)
unfolding shown
shown-IsNumbered [] latest s v h room = omega arith
shown-IsNumbered (called c ∷ steps) latest s v h room =
    let up = sequence-apply c s (omega arith) in
    IsNumbered-raise latest ((apply c s).sequence + length steps) (s.sequence + suc (length steps))
      (shown steps latest (apply c s)) (omega arith)
      (shown-IsNumbered steps latest (apply c s) (apply-IsValid c s (omega arith) v)
        (omega (arith, sequence_kept c s)) (omega arith))
shown-IsNumbered (ticked ∷ steps) latest s v h room =
    let (now, within) = new_entries-IsNumbered latest s v h in
    IsNumbered-append latest (new_entries latest s).1 (s.sequence + suc (length steps))
      (new_entries latest s).0 (shown steps (new_entries latest s).1 s) now
      (IsNumbered-raise (new_entries latest s).1 (s.sequence + length steps)
        (s.sequence + suc (length steps)) (shown steps (new_entries latest s).1 s) (omega arith)
        (shown-IsNumbered steps (new_entries latest s).1 s v within (omega arith)))

keep-append : (p : Entry → Bool) (xs ys : List Entry) → keep p (xs ++ ys) ≡ keep p xs ++ keep p ys
keep-append p [] ys = refl
keep-append p (x ∷ xs) ys = ground (arith, keep-append p xs ys)

numbered_sequence :
    (e : Entry) (now now' : ℕ) (s : Store)
    → s.sequence + 1 < 2 ^ 64
    → (record_entry e now now' s).1.sequence ≡ s.sequence + 1
unfolding record_entry numbered
numbered_sequence e now now' s h = omega arith

recorded-IsValid :
    (e : Entry) (now now' : ℕ) (cs : List Call) (s : Store)
    → s.sequence + suc (length cs) < 2 ^ 64
    → IsValid s
    → IsValid (after_calls cs (record_entry e now now' s).0)
unfolding after_calls apply
recorded-IsValid e now now' cs s room v = after_calls-IsValid (record_call e now now' ∷ cs) s room v

-- An entry that is recorded while a stream is open is shown at the next tick, whatever calls the history
-- gets in between, if the entry is then still held, among the newest 200. The numbers do not reach 2^64.
pub new_entries-record_entry :
    (e : Entry) (now now' latest : ℕ) (cs : List Call) (s : Store) (before after : List Entry)
    → IsValid s
    → latest ≤ s.sequence
    → s.sequence + suc (length cs) < 2 ^ 64
    → newest 200 (after_calls cs (record_entry e now now' s).0).entries
      ≡ before ++ (record_entry e now now' s).1 ∷ after
    → (earlier later : List Entry) × ((new_entries latest
          (after_calls cs (record_entry e now now' s).0)).0
        ≡ earlier ++ (record_entry e now now' s).1 ∷ later)
new_entries-record_entry e now now' latest cs s before after v h room held =
    let s' = after_calls cs (record_entry e now now' s).0 in
    let valid : IsValid s' = recorded-IsValid e now now' cs s room v in
    let above : ltb latest (record_entry e now now' s).1.sequence ≡ true =
      lt→ltb latest _ (omega (arith, numbered_sequence e now now' s)) in
    (
      keep (is_above latest) before,
      keep (is_above latest) after,
      new_entries-keep latest s' valid
          ∙ ap (keep (is_above latest)) held
          ∙ keep-append (is_above latest) before ((record_entry e now now' s).1 ∷ after)
          ∙ rw above refl,
    )
