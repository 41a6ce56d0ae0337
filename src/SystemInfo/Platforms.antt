-- ===== src/SystemInfo/Platforms.antt =====
-- The readings from the system calls of Windows, internal/systeminfo/sample_windows.go, and from package
-- runtime elsewhere, internal/systeminfo/sample_other.go.
use kaven_dns.Go.{itoa, to_upper}
use kaven_dns.Prelude.{
  none, some, [], ◌∷◌, ℕ, Text, Option, ◌++◌, text_eq, leb, if◌then◌else◌, codes, Text-discrete,
}
use kaven_dns.SystemInfo.Defs.{sub_word, Sample}
use kaven_dns.SystemInfo.Sampling.{no_sample, add_word}

-- What the system calls fill in, where they succeed: the version, the idle, the kernel and the user time
-- of the system, the kernel and the user time of the process, the physical memory and what is available
-- of it, and the working set. A time is what `Nanoseconds` gives, as a word of 64 bits.
pub record Calls : Type 0 where
  pub version : ℕ × ℕ × ℕ
  pub system_times : Option (ℕ × ℕ × ℕ)
  pub process_times : Option (ℕ × ℕ)
  pub memory_status : Option (ℕ × ℕ)
  pub working_set : Option ℕ

-- The idle time, and the kernel and user time together.
abbrev pub system_ticks : Option (ℕ × ℕ × ℕ) → ℕ × ℕ
system_ticks none = (0, 0)
system_ticks (some (idle, kernel, user)) = (idle, add_word kernel user)

-- The physical memory, and what is used of it.
abbrev pub physical_memory : Option (ℕ × ℕ) → ℕ × ℕ
physical_memory none = (0, 0)
physical_memory (some (total, available)) =
    (total, if leb available total then sub_word total available else 0)

unfoldable pub read_windows : Calls → Sample
unfolding itoa
read_windows calls =
    let (major, minor, build) = calls.version in
    let (idle, total) = system_ticks calls.system_times in
    let (memory, used) = physical_memory calls.memory_status in
    record (no_sample (codes "Windows")) {
      release = itoa major ++ b'.' ∷ (itoa minor ++ b'.' ∷ itoa build);
      idle_ticks = idle;
      total_ticks = total;
      process_ticks = elim calls.process_times [
        | none ↦ 0
        | some (kernel, user) ↦ add_word kernel user
      ];
      total_memory = memory;
      used_memory = used;
      process_rss = elim calls.working_set [ none ↦ 0 | some n ↦ n ];
    }

unfoldable pub platform_name : Text → Text
unfolding Text-discrete to_upper
platform_name [] = codes "Unknown"
platform_name (c ∷ s) =
    if text_eq (c ∷ s) (codes "darwin")
    then codes "macOS"
    else if text_eq (c ∷ s) (codes "windows")
    then codes "Windows"
    else to_upper (c ∷ []) ++ s

-- The memory that package runtime got from the system, and the name of the system.
unfoldable pub read_other : ℕ → Text → Sample
unfolding platform_name
read_other sys goos = record (no_sample (platform_name goos)) { process_rss = sys }
