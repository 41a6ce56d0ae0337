-- ===== src/History/Runs.antt =====
-- The history over any sequence of calls: what holds of every state that can be reached.
use kaven_dns.History.Defs.{
  count, u64, numbered, set_limits, at_least_one, reset, trim, record_entry, Store, Entry,
}
use kaven_dns.History.Trim.{trim_lem}
use kaven_dns.Prelude.{
  [], ◌∷◌, suc, refl, pos, negsuc, arith, ℕ, ◌≡◌, List, ◌^◌, ◌<◌, length, ◌≤◌, ◌+◌, ◌++◌, ℤ,
}
use mathlib.Core.Path.{subst}

-- The calls that change the history, each with the readings of the clock it makes.
pub data Call : Type 0 where
  record_call : Entry → ℕ → ℕ → Call
  reset_call : ℕ → Call
  set_limits_call : ℤ → ℤ → ℕ → Call

unfoldable pub apply : Call → Store → Store
unfolding record_entry reset set_limits
apply (record_call e now now') s = (record_entry e now now' s).0
apply (reset_call now) s = (reset s now).0
apply (set_limits_call max retention now) s = set_limits s max retention now

unfoldable pub after_calls : List Call → Store → Store
unfolding apply
after_calls [] s = s
after_calls (c ∷ cs) s = after_calls cs (apply c s)

-- The entries are numbered in ascending order, above `low` and up to `high`.
abbrev pub IsNumbered : ℕ → ℕ → List Entry → Type 0
IsNumbered low high [] = low ≤ high
IsNumbered low high (e ∷ es) = (low < e.sequence) × IsNumbered e.sequence high es

-- At least one entry may be kept, no more are than that, and the numbers ascend up to the store's.
abbrev pub IsValid : Store → Type 0
IsValid s =
    (1 ≤ s.max_entries) × (length s.entries ≤ s.max_entries) × IsNumbered 0 s.sequence s.entries

pub IsNumbered-le : (low high : ℕ) (es : List Entry) → IsNumbered low high es → low ≤ high
IsNumbered-le low high [] h = h
IsNumbered-le low high (e ∷ es) (h, t) = omega (arith, IsNumbered-le e.sequence high es t)

pub IsNumbered-lower :
    (low low' high : ℕ) (es : List Entry)
    → low' ≤ low
    → IsNumbered low high es
    → IsNumbered low' high es
IsNumbered-lower low low' high [] k h = omega arith
IsNumbered-lower low low' high (e ∷ es) k (h, t) = (omega arith, t)

pub IsNumbered-append_right :
    (low high : ℕ) (xs ys : List Entry) → IsNumbered low high (xs ++ ys) → IsNumbered low high ys
IsNumbered-append_right low high [] ys h = h
IsNumbered-append_right low high (e ∷ es) ys (h, t) =
    IsNumbered-lower e.sequence low high ys (omega arith)
      (IsNumbered-append_right e.sequence high es ys t)

IsNumbered-concat :
    (low high : ℕ) (xs : List Entry) (e : Entry)
    → e.sequence ≡ suc high
    → IsNumbered low high xs
    → IsNumbered low (suc high) (xs ++ e ∷ [])
IsNumbered-concat low high [] e q h = (omega arith, omega arith)
IsNumbered-concat low high (x ∷ xs) e q (h, t) = (h, IsNumbered-concat x.sequence high xs e q t)

trim-IsValid :
    (s : Store) (now : ℕ)
    → 1 ≤ s.max_entries
    → IsNumbered 0 s.sequence s.entries
    → IsValid (trim s now)
unfolding trim
trim-IsValid s now one numbered =
    let (over, old, parts, _, _, short, _) = trim_lem s now in
    (
      one,
      short,
      IsNumbered-append_right 0 s.sequence (over ++ old) (trim s now).entries
          (subst (IsNumbered 0 s.sequence) parts numbered),
    )

at_least_one_le : (n : ℤ) → 1 ≤ at_least_one n
at_least_one_le (pos n) = ground arith
at_least_one_le (negsuc n) = ground arith

u64_small : (n : ℕ) → n < 2 ^ 64 → u64 n ≡ n
u64_small n h = omega arith

pub apply-IsValid :
    (c : Call) (s : Store) → s.sequence + 1 < 2 ^ 64 → IsValid s → IsValid (apply c s)
unfolding apply record_entry reset set_limits numbered
apply-IsValid (record_call e now now') s h v =
    let (one, short, up) = v in
    let e' = numbered (u64 (s.sequence + 1)) now e in
    let next : u64 (s.sequence + 1) ≡ suc s.sequence =
      omega (arith, u64_small (s.sequence + 1) h) in
    let after = record s {
      sequence = u64 (s.sequence + 1);
      entries = s.entries ++ e' ∷ [];
      stats = count e' s.stats;
    } in
    trim-IsValid after now' one
      (rw next (IsNumbered-concat 0 s.sequence s.entries (numbered (suc s.sequence) now e) refl up))
apply-IsValid (reset_call now) s h (one, short, up) = (one, omega arith, omega arith)
apply-IsValid (set_limits_call max retention now) s h (one, short, up) =
    trim-IsValid (record s { max_entries = at_least_one max; retention = retention }) now
      (at_least_one_le max) up

pub sequence-apply :
    (c : Call) (s : Store) → s.sequence + 1 < 2 ^ 64 → (apply c s).sequence ≤ s.sequence + 1
unfolding apply record_entry reset set_limits trim
sequence-apply (record_call e now now') s h = omega (arith, u64_small (s.sequence + 1) h)
sequence-apply (reset_call now) s h = omega arith
sequence-apply (set_limits_call max retention now) s h = omega arith

-- Whatever calls are made, up to 2^64 - 1 of them since the sequence began, the history keeps no
-- more entries than its maximum, which is at least one, and their numbers strictly ascend up to the store's.
pub after_calls-IsValid :
    (cs : List Call) (s : Store)
    → s.sequence + length cs < 2 ^ 64
    → IsValid s
    → IsValid (after_calls cs s)
unfolding after_calls
after_calls-IsValid [] s h v = v
after_calls-IsValid (c ∷ cs) s h v =
    after_calls-IsValid cs (apply c s) (omega (arith, sequence-apply c s))
      (apply-IsValid c s (omega arith) v)
