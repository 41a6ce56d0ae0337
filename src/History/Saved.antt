-- ===== src/History/Saved.antt =====
-- `Persist`, and what `Load` reads back from the file.
use kaven_dns.History.Defs.{Entry, Stats, Store, restore, new, trim, drop_old, cutoff, at_least_one}
use kaven_dns.Persist.{write_json, Outcome, Disk}
use kaven_dns.Persist.Write.{write_json_ok}
use kaven_dns.Prelude.{
  none, some, [], ◌∷◌, true, false, refl, pos, arith, ℕ, ◌≡◌, List, Text, Bool, Option, ◌∙◌, ltb_ℤ,
  ap, ◌==◌, ◌-◌, ltb, ◌≤◌, is_empty, ℤ, length, if◌then◌else◌, All,
}

-- The entries, the counters and the sequence, as the file holds them.
abbrev pub Saved : Type 0
Saved = List Entry × Stats × ℕ

-- A store with an empty path keeps no file.
unfoldable pub persist : Outcome → Text → Store → Disk Saved → Disk Saved × Bool
unfolding write_json
persist o path s d =
    let written = write_json o (s.entries, s.stats, s.sequence) d in
    if is_empty path then (d, true) else written

-- `Load`, where the file is there and decodes, or is missing.
unfoldable pub load : ℤ → ℤ → Option Saved → ℕ → Store
unfolding restore new
load max retention_days none now = new max retention_days now
load max retention_days (some (entries, stats, sequence)) now =
    restore max retention_days entries stats sequence now

-- No entry is too old at a time, where there is a limit to the age.
abbrev pub IsRecentAt : ℕ → Store → Type 0
IsRecentAt now s = All (λ e. cutoff s.retention now ≤ e.time) s.entries

drop_old-nothing :
    (limit : ℕ) (es : List Entry) → All (λ e. limit ≤ e.time) es → drop_old limit es ≡ es
unfolding drop_old
drop_old-nothing limit [] h = refl
drop_old-nothing limit (e ∷ es) (h, hs) =
    let young : ltb e.time limit ≡ false = ground arith in rw young refl

either_way : (b : Bool) (es : List Entry) → (if b then es else es) ≡ es
either_way true es = refl
either_way false es = refl

trim-nothing :
    (s : Store) (now : ℕ) → length s.entries ≤ s.max_entries → IsRecentAt now s → trim s now ≡ s
unfolding trim
trim-nothing s now short recent =
    let none_over : length s.entries - s.max_entries ≡ 0 = omega arith in
    rw (none_over, drop_old-nothing (cutoff s.retention now) s.entries recent)
      (ap (λ es. record s { entries = es }) (either_way (ltb_ℤ (pos 0) s.retention) s.entries))

pub persist-file :
    (o : Outcome) (path : Text) (s : Store) (d : Disk Saved)
    → is_empty path ≡ false
    → (persist o path s d).1 ≡ true
    → (persist o path s d).0.file ≡ some (s.entries, s.stats, s.sequence)
unfolding persist
persist-file o path s d there ok =
    rw there ((write_json_ok o (s.entries, s.stats, s.sequence) d (rw there at ok)).0)

restore-same :
    (s : Store) (max retention_days : ℤ) (now : ℕ)
    → at_least_one max ≡ s.max_entries
    → retention_days ≡ s.retention
    → (s.stats.started_at == 0) ≡ false
    → length s.entries ≤ s.max_entries
    → IsRecentAt now s
    → restore max retention_days s.entries s.stats s.sequence now ≡ s
unfolding restore
restore-same s max retention_days now same_max same_days started short recent =
    rw (same_max, same_days, started) (trim-nothing s now short recent)

loaded_lem :
    (max retention_days : ℤ) (entries : List Entry) (stats : Stats) (sequence now : ℕ)
    → load max retention_days (some (entries, stats, sequence)) now
      ≡ restore max retention_days entries stats sequence now
unfolding load
loaded_lem max retention_days entries stats sequence now = refl

-- A history that is written to its file is the history that is read back, if the write succeeds, the limits
-- are the same, the history holds no more than they allow, and no entry has become too old.
pub load-persist :
    (o : Outcome) (path : Text) (s : Store) (d : Disk Saved) (max retention_days : ℤ) (now : ℕ)
    → is_empty path ≡ false
    → (persist o path s d).1 ≡ true
    → at_least_one max ≡ s.max_entries
    → retention_days ≡ s.retention
    → (s.stats.started_at == 0) ≡ false
    → length s.entries ≤ s.max_entries
    → IsRecentAt now s
    → load max retention_days (persist o path s d).0.file now ≡ s
load-persist o path s d max retention_days now there ok same_max same_days started short recent =
    ap (λ file. load max retention_days file now) (persist-file o path s d there ok)
    ∙ loaded_lem max retention_days s.entries s.stats s.sequence now
    ∙ restore-same s max retention_days now same_max same_days started short recent
