-- ===== src/LogStore/Tests.antt =====
-- The logs at concrete inputs.
use kaven_dns.LogStore.Bounds.{run-IsBounded, run, console_call, record_call, write_call, IsBounded}
use kaven_dns.LogStore.Defs.{new}
use kaven_dns.Prelude.{codes, [], ◌∷◌, pos, List}

abbrev calls : List kaven_dns.LogStore.Bounds.Call
calls =
    console_call (codes "log") (codes "one") 1
    ∷ write_call (codes "two") 2
    ∷ record_call (codes "rules") (codes "three") [] 3
    ∷ []

run-IsBounded_example : IsBounded (run calls (new (pos 1)))
run-IsBounded_example = run-IsBounded (pos 1) calls
