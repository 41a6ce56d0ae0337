-- ===== src/SystemInfo/Tests.antt =====
-- The monitor at concrete inputs.
use kaven_dns.Prelude.{
  none, some, [], ◌∷◌, refl, arith, ◌≡◌, List, Text, ◌-◌, ◌^◌, Text-discrete, codes, All,
}
use kaven_dns.SystemInfo.Defs.{new_monitor, snapshot, Machine}
use kaven_dns.SystemInfo.Percent.{watch-IsFine, from_proc, watch, IsFine}
use kaven_dns.SystemInfo.Platforms.{read_windows, platform_name}
use kaven_dns.SystemInfo.Reading.{parse_process_ticks-join, parse_cpu_stat-line}
use kaven_dns.SystemInfo.Sampling.{
  read_linux, parse_process_ticks, parse_memory_info, parse_cpu_stat, Proc,
}

program : Unit {0}
unfolding parse_cpu_stat parse_process_ticks parse_memory_info platform_name read_linux read_windows
    kaven_dns.Go.Strconv.natural kaven_dns.Go.itoa kaven_dns.Go.join snapshot Text-discrete watch
    kaven_dns.Go.split new_monitor kaven_dns.Go.Strings.is_space
program = tt

platform_name_test : platform_name (codes "linux") ≡ codes "Linux"
unfolding program
platform_name_test = refl

memory_test :
    parse_memory_info (codes "MemTotal:  1000 kB\nMemFree: 100 kB\nCached: 200 kB\n")
    ≡ (1_024_000, 716_800)
unfolding program
memory_test = refl

abbrev fields : List Text
fields =
    codes "S"
    ∷ codes "1"
    ∷ codes "2"
    ∷ codes "3"
    ∷ codes "4"
    ∷ codes "5"
    ∷ codes "6"
    ∷ codes "7"
    ∷ codes "8"
    ∷ codes "9"
    ∷ codes "10"
    ∷ codes "120"
    ∷ codes "34"
    ∷ codes "0"
    ∷ []

parse_process_ticks-join_example :
    parse_process_ticks (codes "42 (a) b) S 1 2 3 4 5 6 7 8 9 10 120 34 0") ≡ 154
unfolding program
parse_process_ticks-join_example =
    parse_process_ticks-join (codes "42 (a) b") fields 120 34
      (
        (refl, refl),
        (
          (refl, refl),
          (
            (refl, refl),
            (
              (refl, refl),
              (
                (refl, refl),
                (
                  (refl, refl),
                  (
                    (refl, refl),
                    (
                      (refl, refl),
                      (
                        (refl, refl),
                        (
                          (refl, refl),
                          ((refl, refl), ((refl, refl), ((refl, refl), ((refl, refl), tt)))),
                        ),
                      ),
                    ),
                  ),
                ),
              ),
            ),
          ),
        ),
      )
      refl refl refl (omega arith) (omega arith)

parse_cpu_stat-line_example :
    parse_cpu_stat (codes "cpu  1 2 3 40 5 6 7 8 9 10\ncpu0 1 2 3 4") ≡ (72, 45)
unfolding program
parse_cpu_stat-line_example =
    parse_cpu_stat-line 1 2 3 40 5 (6 ∷ 7 ∷ 8 ∷ 9 ∷ 10 ∷ []) (codes "cpu0 1 2 3 4") (
      omega arith,
      (
        omega arith,
        (
          omega arith,
          (
            omega arith,
            (
              omega arith,
              (omega arith, (omega arith, (omega arith, (omega arith, (omega arith, tt))))),
            ),
          ),
        ),
      ),
    )

abbrev proc : Proc
proc = record {
  osrelease = none;
  stat = some (codes "cpu  1 2 3 40 5\n");
  self_stat = none;
  meminfo = some (codes "MemTotal: 4096 kB\nMemAvailable: 1024 kB\n");
  statm = some (codes "100 50 3");
  page_size = 4096;
}

abbrev machine : Machine
machine = record { hostname = codes "h"; arch = codes "amd64"; runtime_version = []; cores = 4 }

watch-IsFine_example :
    All IsFine
      (watch machine (from_proc ((5, proc) ∷ (9, proc) ∷ [])) (new_monitor (read_linux proc) 1))
unfolding program
watch-IsFine_example =
    watch-IsFine machine (read_linux proc) 1 ((5, proc) ∷ (9, proc) ∷ [])
      (omega arith, (omega arith, tt))

windows_test :
    (read_windows (record {
      version = (10, 0, 19045);
      system_times = some (5, 2 ^ 64 - 1, 3);
      process_times = none;
      memory_status = some (8_388_608, 2_097_152);
      working_set = none;
    })).used_memory
    ≡ 6_291_456
unfolding program
windows_test = refl
