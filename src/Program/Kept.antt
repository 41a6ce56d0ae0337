-- ===== src/Program/Kept.antt =====
-- What the program has when it starts again is what it had when it ended.
use kaven_dns.Auth.Defs.{load, alive}
use kaven_dns.Config.{contents}
use kaven_dns.Config.Sanitize.{IsClean}
use kaven_dns.History.Defs.{at_least_one}
use kaven_dns.History.Saved.{Saved, persist, IsRecentAt}
use kaven_dns.Persist.{Outcome, Disk}
use kaven_dns.Prelude.{
  none, some, [], false, ℕ, ◌≡◌, List, Text, Bool, Option, map, ◌≤◌, length, ◌==◌,
}
use kaven_dns.Program.Defs.{stop, Boot, first_history}
use kaven_dns.Rules.{loaded}
use kaven_dns.Rules.Accepting.{AllAccepted}
use kaven_dns.Rules.Normal.{current}
use kaven_dns.Web.State.{System}
use mathlib.Core.Option
use kaven_dns.History.Saved
use kaven_dns.Config
use kaven_dns.Rules

-- What is found of the configuration: a saved one is decoded in full.
abbrev pub config_found : Option Config.Config → Config.FileRead
config_found none = Config.missing
config_found (some c) = contents (λ over. some c)

abbrev pub rules_found : Option (List Rules.Rule) → Rules.FileRead
rules_found none = Rules.missing
rules_found (some rs) = loaded rs

-- A start that finds the files as a run left them, with its history on the disk `d`.
abbrev pub left_boot : Boot → System → Disk Saved → Boot
left_boot b s d = record b {
  config_file = config_found s.config.disk.file;
  config_disk = s.config.disk;
  rules_file = rules_found s.rules.disk.file;
  rules_disk = s.rules.disk;
  history_file = d.file;
  sessions_file = s.auth.disk.file;
  sessions_disk = s.auth.disk;
}

-- What package encoding/json gives back for a value that it wrote.
pub record Json : Type 0 where
  pub config : Config.Config → Config.Config
  pub rules : List Rules.Rule → List Rules.Rule
  pub history : Saved → Saved
  pub sessions : List (Text × ℕ) → List (Text × ℕ)

-- The same start, where the files are read through their JSON texts.
abbrev pub next_boot : Json → Boot → System → Disk Saved → Boot
next_boot j b s d = record (left_boot b s d) {
  config_file = config_found (Option.map j.config s.config.disk.file);
  rules_file = rules_found (Option.map j.rules s.rules.disk.file);
  history_file = Option.map j.history d.file;
  sessions_file = Option.map j.sessions s.auth.disk.file;
}

-- The files hold the configuration and the rules of the system, which are sound, and the environment sets
-- nothing.
pub record IsOnDisk (b : Boot) (s : System) : Type 0 where
  pub unset : (name : Text) → b.environment name ≡ []
  pub config : s.config.disk.file ≡ some s.config.value
  pub clean : IsClean s.config.value
  pub rules : s.rules.disk.file ≡ some s.rules.rules
  pub accepted : AllAccepted s.rules.rules

-- The history is within the limits of the configuration at the time of the start, and its counters have begun.
pub record IsCurrent (b : Boot) (s : System) : Type 0 where
  pub most : at_least_one s.config.value.query_history_max_entries ≡ s.history.max_entries
  pub days : s.config.value.query_retention_days ≡ s.history.retention
  pub short : length s.history.entries ≤ s.history.max_entries
  pub recent : IsRecentAt b.now s.history
  pub started : (s.history.stats.started_at == 0) ≡ false

-- The start `next` has what the system `s` had.
pub record IsKept (b : Boot) (s : System) (next : Boot) : Type 0 where
  pub config : Config.load next.config_file b.environment ≡ some s.config.value
  pub rules :
      Rules.load s.rules.path s.rules.disk next.rules_file
      ≡ some (record s.rules { rules = map current s.rules.rules })
  pub history : first_history next s.config.value ≡ s.history
  pub sessions :
      (load s.auth.path next.sessions_disk next.sessions_file b.now).sessions
      ≡ alive b.now s.auth.sessions

-- The end of `main`: the sockets of DNS close, the sessions and the history are saved.
unfoldable pub halt : Outcome → Outcome → Text → System → Disk Saved → (System × Disk Saved) × Bool
unfolding stop persist
halt o o' path s d = let (disk, saved) = persist o' path s.history d in ((stop o s, disk), saved)
