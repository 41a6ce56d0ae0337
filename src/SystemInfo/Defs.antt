-- ===== src/SystemInfo/Defs.antt =====
-- Monitor: the readings, the percentages between two readings, and the snapshot. A percentage is held in
-- tenths, the value that `percent` rounds to. A quotient of floats stands for its exact value, and the
-- reader, the clock and what package runtime says are arguments.
use kaven_dns.Prelude.{
  pos, negsuc, ℕ, Text, ltb_ℤ, ℤ, ltb, ◌^◌, ◌&&◌, ◌%◌, leb, ◌/◌, ◌*◌, if◌then◌else◌, ◌-◌, ◌+◌,
  codes,
}

pub record Sample : Type 0 where
  pub process_ticks : ℕ
  pub total_ticks : ℕ
  pub idle_ticks : ℕ
  pub total_memory : ℕ
  pub used_memory : ℕ
  pub process_rss : ℕ
  pub platform : Text
  pub release : Text

-- The reader is an argument of the operations; the times are milliseconds.
pub record Monitor : Type 0 where
  pub previous : Sample
  pub started : ℕ
  pub process : ℤ
  pub system : ℤ

-- What the operating system and package runtime say.
pub record Machine : Type 0 where
  pub hostname : Text
  pub arch : Text
  pub runtime_version : Text
  pub cores : ℕ

pub record Snapshot : Type 0 where
  pub hostname : Text
  pub platform : Text
  pub release : Text
  pub arch : Text
  pub runtime_name : Text
  pub runtime_version : Text
  pub cores : ℕ
  pub total_mem_mb : ℕ
  pub used_mem_mb : ℕ
  pub process_rss_mb : ℕ
  pub process_cpu : ℤ
  pub system_cpu : ℤ
  pub uptime_seconds : ℕ

unfoldable pub new_monitor : Sample → ℕ → Monitor
new_monitor first now = record { previous = first; started = now; process = pos 0; system = pos 0 }

-- A difference of 64 bits.
abbrev pub sub_word : ℕ → ℕ → ℕ
sub_word a b = (a + 2 ^ 64 - b) % 2 ^ 64

-- The difference as a signed number.
unfoldable pub minus : ℕ → ℕ → ℤ
minus a b = if ltb a b then negsuc (b - a - 1) else pos (a - b)

-- A fraction in tenths of a percent, rounded half away from 0, for a whole above 0.
unfoldable pub tenths : ℤ → ℕ → ℤ
unfolding minus
tenths (pos n) whole = pos ((n * 2000 + whole) / (2 * whole))
tenths (negsuc n) whole = minus 0 (((n + 1) * 2000 + whole) / (2 * whole))

-- `percent(part / whole * 100)` for a whole above 0: at least 0 and at most 100.0, that is, the part is
-- at least 0 and at most the whole.
unfoldable pub percent : ℤ → ℕ → ℤ
unfolding tenths
percent part whole =
    let least = if ltb_ℤ part (pos whole) then part else pos whole in
    tenths (if ltb_ℤ least (pos 0) then pos 0 else least) whole

-- The sum in front of the division is of 64 bits.
unfoldable pub to_mb : ℕ → ℕ
to_mb value = (value + 512 * 1024) % 2 ^ 64 / (1024 * 1024)

-- The two percentages after a reading; a part idle of more than the whole gives a percentage below 0,
-- which `percent` cuts at 0.
unfoldable pub measured : Sample → Monitor → ℤ × ℤ
unfolding percent minus
measured current m =
    let whole = sub_word current.total_ticks m.previous.total_ticks in
    let used = sub_word current.process_ticks m.previous.process_ticks in
    let idle = sub_word current.idle_ticks m.previous.idle_ticks in
    if leb m.previous.total_ticks current.total_ticks && ltb 0 whole
    then (
      if leb m.previous.process_ticks current.process_ticks
          then percent (pos used) whole
          else m.process,
      if leb m.previous.idle_ticks current.idle_ticks
          then percent (minus whole idle) whole
          else m.system,
    )
    else (m.process, m.system)

unfoldable pub advance : Sample → Monitor → Monitor
unfolding measured
advance current m =
    let (process, system) = measured current m in
    record m { previous = current; process = process; system = system }

unfoldable pub shown : Machine → ℕ → Sample → Monitor → Snapshot
unfolding to_mb
shown machine now current m = record {
  hostname = machine.hostname;
  platform = current.platform;
  release = current.release;
  arch = machine.arch;
  runtime_name = codes "Go";
  runtime_version = machine.runtime_version;
  cores = machine.cores;
  total_mem_mb = to_mb current.total_memory;
  used_mem_mb = to_mb current.used_memory;
  process_rss_mb = to_mb current.process_rss;
  process_cpu = m.process;
  system_cpu = m.system;
  uptime_seconds = (now - m.started) / 1000;
}

unfoldable pub snapshot : Machine → ℕ → Sample → Monitor → Monitor × Snapshot
unfolding advance shown
snapshot machine now current m =
    let next = advance current m in (next, shown machine now current next)
