-- ===== src/LogStore/Bounds.antt =====
-- The logs over any sequence of calls.
use kaven_dns.Go.{trim_space}
use kaven_dns.LogStore.Defs.{write, last, record_operation, new, add_console, Store}
use kaven_dns.Prelude.{
  codes, pos_part, ◌-◌, ltb_ℤ, is_empty, length-drop, if◌then◌else◌, Bool-cases, ◌≤◌, ℤ, length, [],
  ◌∷◌, inl, inr, pos, negsuc, arith, ℕ, List, Text,
}

pub data Call : Type 0 where
  console_call : Text → Text → ℕ → Call
  write_call : Text → ℕ → Call
  record_call : Text → Text → Text → ℕ → Call

unfoldable pub apply : Call → Store → Store
unfolding add_console write record_operation
apply (console_call level message now) s = add_console level message now s
apply (write_call bytes now) s = (write bytes now s).0
apply (record_call kind message level now) s = record_operation kind message level now s

unfoldable pub run : List Call → Store → Store
unfolding apply
run [] s = s
run (c ∷ cs) s = run cs (apply c s)

-- There is room for an entry, and neither log has more entries than there is room for.
abbrev pub IsBounded : Store → Type 0
IsBounded s =
    (1 ≤ s.capacity) × (length s.console ≤ s.capacity) × (length s.operations ≤ s.capacity)

length-last : {A : Type 0} (n : ℕ) (xs : List A) → length (last n xs) ≤ n
length-last n xs = omega (arith, length-drop (length xs - n) xs)

console-IsBounded :
    (level message : Text) (now : ℕ) (s : Store)
    → IsBounded s
    → IsBounded (add_console level message now s)
unfolding add_console
console-IsBounded level message now s (room, c, o) = (room, length-last s.capacity _, o)

pub apply-IsBounded : (c : Call) (s : Store) → IsBounded s → IsBounded (apply c s)
unfolding apply record_operation write
apply-IsBounded (console_call level message now) s h = console-IsBounded level message now s h
apply-IsBounded (write_call bytes now) s h = elim (Bool-cases (is_empty (trim_space bytes))) [
  | inl e ↦ rw (e, write) h
  | inr e ↦ rw (e, write) (console-IsBounded (codes "log") (trim_space bytes) now s h)
]
apply-IsBounded (record_call kind message level now) s (room, c, o) =
    (room, c, length-last s.capacity _)

run_from-IsBounded : (cs : List Call) (s : Store) → IsBounded s → IsBounded (run cs s)
unfolding run
run_from-IsBounded [] s h = h
run_from-IsBounded (c ∷ cs) s h = run_from-IsBounded cs (apply c s) (apply-IsBounded c s h)

at_least_one_le : (n : ℤ) → 1 ≤ (if ltb_ℤ n (pos 1) then 1 else pos_part n)
at_least_one_le (pos n) = ground arith
at_least_one_le (negsuc n) = ground arith

-- Whatever is logged in a new store, neither log has more entries than its capacity, which is at least one.
pub run-IsBounded : (capacity : ℤ) (cs : List Call) → IsBounded (run cs (new capacity))
unfolding new
run-IsBounded capacity cs =
    run_from-IsBounded cs (new capacity) (at_least_one_le capacity, omega arith, omega arith)
