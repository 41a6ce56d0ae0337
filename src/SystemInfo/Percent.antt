-- ===== src/SystemInfo/Percent.antt =====
-- The bounds of what a snapshot shows.
use kaven_dns.Go.{split}
use kaven_dns.Prelude.{
  none, some, [], ◌∷◌, true, false, inl, inr, pos, negsuc, arith, ℕ, ◌≡◌, List, Text, Bool, Option,
  ◌==◌, codes, ltb→le, ◌/◌, ◌&&◌, ltb→lt, ◌+◌, ltb, leb, ◌≤ℤ◌, ◌*◌, if◌then◌else◌, Bool-cases, ℤ,
  ◌^◌, ◌<◌, ◌≤◌, ◌-◌, All,
}
use kaven_dns.SystemInfo.Defs.{
  minus, tenths, sub_word, new_monitor, Sample, Monitor, Machine, Snapshot, percent, to_mb,
  measured, advance, shown, snapshot,
}
use kaven_dns.SystemInfo.Sampling.{
  add_word, value_at, memory_lines, if_read, Table, read_linux, parse_memory_info, memory_of, Proc,
}
use native.Mathlib.Nat.{div-lt_iff_lt-mul}

-- Tenths of a percent from 0 to 1000.
abbrev pub IsTenths : ℤ → Type 0
IsTenths n = (pos 0 ≤ℤ n) × (n ≤ℤ pos 1000)

-- The monitor holds percentages.
abbrev pub IsPercentage : Monitor → Type 0
IsPercentage m = IsTenths m.process × IsTenths m.system

tenths-IsTenths : (n whole : ℕ) → n ≤ whole → 0 < whole → IsTenths (tenths (pos n) whole)
unfolding tenths
tenths-IsTenths n whole h p =
    let top : (n * 2000 + whole) / (2 * whole) ≤ 1000 = omega (
      arith,
      (div-lt_iff_lt-mul {k = 2 * whole} {x = n * 2000 + whole} {y = 1001} (omega arith)).1
          (omega arith),
    ) in
    (omega arith, omega (arith, top))

clamped :
    (part : ℤ) (whole : ℕ) → (n : ℕ) × (n ≤ whole) × (percent part whole ≡ tenths (pos n) whole)
unfolding percent
clamped (pos n) whole = elim (Bool-cases (ltb n whole)) [
  | inl h ↦ (n, omega (arith, ltb→lt _ _ h), ground arith)
  | inr h ↦ (whole, omega arith, ground arith)
]
clamped (negsuc n) whole = (0, omega arith, ground arith)

percent-IsTenths : (part : ℤ) (whole : ℕ) → 0 < whole → IsTenths (percent part whole)
percent-IsTenths part whole p =
    let (n, h, e) = clamped part whole in rw e (tenths-IsTenths n whole h p)

if-All : (P : ℤ → Type 0) (b : Bool) (x y : ℤ) → P x → P y → P (if b then x else y)
if-All P true x y p q = p
if-All P false x y p q = q

advance-IsPercentage :
    (current : Sample) (m : Monitor) → IsPercentage m → IsPercentage (advance current m)
unfolding advance measured
advance-IsPercentage current m (p, s) =
    let whole = sub_word current.total_ticks m.previous.total_ticks in
    let used = sub_word current.process_ticks m.previous.process_ticks in
    let idle = sub_word current.idle_ticks m.previous.idle_ticks in
    elim (Bool-cases (leb m.previous.total_ticks current.total_ticks && ltb 0 whole)) [
      | inr h ↦ rw h (p, s)
      | inl h ↦
          let some_time : 0 < whole = ground (arith, h) in
          rw h (
            if-All IsTenths (leb m.previous.process_ticks current.process_ticks) _ _
                (percent-IsTenths (pos used) whole some_time) p,
            if-All IsTenths (leb m.previous.idle_ticks current.idle_ticks) _ _
                (percent-IsTenths (minus whole idle) whole some_time) s,
          )
    ]

-- A reading uses no more memory than there is, and the rounding to megabytes does not overflow.
abbrev pub IsSound : Sample → Type 0
IsSound s = (s.used_memory ≤ s.total_memory) × (s.total_memory < 2 ^ 64 - 2 ^ 19)

abbrev pub IsFine : Snapshot → Type 0
IsFine t = IsTenths t.process_cpu × IsTenths t.system_cpu × (t.used_mem_mb ≤ t.total_mem_mb)

to_mb-le : (a b : ℕ) → a ≤ b → b < 2 ^ 64 - 2 ^ 19 → to_mb a ≤ to_mb b
unfolding to_mb
to_mb-le a b h small = omega arith

-- The snapshots of a run, each at its time and with its reading.
unfoldable pub watch : Machine → List (ℕ × Sample) → Monitor → List Snapshot
unfolding snapshot
watch machine [] m = []
watch machine ((now, current) ∷ rest) m =
    let (next, seen) = snapshot machine now current m in seen ∷ watch machine rest next

watched-IsFine :
    (machine : Machine) (readings : List (ℕ × Sample)) (m : Monitor)
    → All (λ r. IsSound r.1) readings
    → IsPercentage m
    → All IsFine (watch machine readings m)
unfolding watch snapshot shown
watched-IsFine machine [] m sound held = tt
watched-IsFine machine ((now, current) ∷ rest) m ((used, small), sound) held =
    let next = advance-IsPercentage current m held in
    (
      (next.0, next.1, to_mb-le current.used_memory current.total_memory used small),
      watched-IsFine machine rest (advance current m) sound next,
    )

sub_word-le :
    (total available : ℕ)
    → sub_word total (if ltb total available then total else available) ≤ total
sub_word-le total available = elim (Bool-cases (ltb total available)) [
  | inl h ↦ rw h (omega arith)
  | inr h ↦ let le = ltb→le _ _ h in rw h (omega (arith, le))
]

memory_of-le : (values : Table) → (memory_of values).1 ≤ (memory_of values).0
unfolding memory_of
memory_of-le values =
    let total = value_at (codes "MemTotal") values in
    let free =
      add_word (add_word (value_at (codes "MemFree") values) (value_at (codes "Buffers") values))
        (value_at (codes "Cached") values) in
    let told = value_at (codes "MemAvailable") values in
    sub_word-le total (if told == 0 then free else told)

memory_read-le :
    (t : Option Text)
    → (if_read (0, 0) parse_memory_info t).1 ≤ (if_read (0, 0) parse_memory_info t).0
unfolding parse_memory_info
memory_read-le none = omega arith
memory_read-le (some t) = memory_of-le (memory_lines [] (split t b'\n'))

read_linux-le : (proc : Proc) → (read_linux proc).used_memory ≤ (read_linux proc).total_memory
unfolding read_linux
read_linux-le proc = memory_read-le proc.meminfo

-- The readings of a run, each from the files of its moment.
abbrev pub from_proc : List (ℕ × Proc) → List (ℕ × Sample)
from_proc [] = []
from_proc ((now, proc) ∷ rest) = (now, read_linux proc) ∷ from_proc rest

-- The memory that is read does not reach the last half megabyte of 64 bits.
abbrev pub Fits : ℕ × Proc → Type 0
Fits (now, proc) = (read_linux proc).total_memory < 2 ^ 64 - 2 ^ 19

from_proc-IsSound :
    (readings : List (ℕ × Proc)) → All Fits readings → All (λ r. IsSound r.1) (from_proc readings)
from_proc-IsSound [] h = tt
from_proc-IsSound ((now, proc) ∷ rest) (h, hs) =
    ((read_linux-le proc, h), from_proc-IsSound rest hs)

-- Whatever the files of /proc hold at each moment, as long as the memory that they tell does not reach the
-- last half megabyte of 64 bits, every snapshot of a new monitor shows percentages of the processor from
-- 0 to 100, and no more used than total memory. The differences are those of 64 bits, which wrap around.
pub watch-IsFine :
    (machine : Machine) (first : Sample) (started : ℕ) (readings : List (ℕ × Proc))
    → All Fits readings
    → All IsFine (watch machine (from_proc readings) (new_monitor first started))
unfolding new_monitor
watch-IsFine machine first started readings h =
    watched-IsFine machine (from_proc readings) (new_monitor first started)
      (from_proc-IsSound readings h) ((omega arith, omega arith), (omega arith, omega arith))
