-- ===== src/Program/Tests.antt =====
-- The program at concrete inputs.
use kaven_dns.History.Saved.{Saved}
use kaven_dns.Persist.{absent, Disk}
use kaven_dns.Prelude.{
  none, some, [], ◌∷◌, true, refl, pos, ◌≡◌, List, Option, text_eq, ◌⊎◌, ℤ, if◌then◌else◌, codes,
  Text-discrete,
}
use kaven_dns.Program.Defs.{
  start, run, stop, request, query, stream_tick, stream_end, tick, Boot, Event,
}
use kaven_dns.Program.Kept.{Json}
use kaven_dns.Program.Runs.{start-run}
use kaven_dns.SystemInfo.Platforms.{read_other}
use kaven_dns.Web.Invariant.{IsSound}
use kaven_dns.Web.Routes.{login_route, flush_cache_route, events_route}
use kaven_dns.Web.Samples.{env, free, fine, signed, state, settings}
use kaven_dns.Web.State.{System}
use kaven_dns.History
use kaven_dns.Config
use kaven_dns.Rules

-- The first start, with a port of the environment.
abbrev boot : Boot
boot = record {
  environment = λ name. if text_eq name (codes "KAVEN_DNS_PORT") then codes "5353" else [];
  config_file = Config.missing;
  config_disk = record { file = none; temporary = absent };
  rules_file = Rules.missing;
  rules_path = codes "rules.json";
  rules_disk = record { file = none; temporary = absent };
  history_file = none;
  sessions_path = [];
  sessions_file = none;
  sessions_disk = record { file = none; temporary = absent };
  binding = free;
  web_bound = true;
  first_reading = read_other 4096 (codes "linux");
  now = 5;
}

abbrev events : List Event
events =
    request env signed (login_route (some (codes "secret")))
    ∷ query env.world [] (record { started = 6; finished = 7; recorded = 7; trimmed = 7 })
        (record {
          questions = record { name = codes "example.com."; qtype = 1 } ∷ [];
          edns = none;
          remote = some (codes "10.0.0.9:4000");
          write_error = none;
        })
    ∷ request env signed flush_cache_route
    ∷ request env signed events_route
    ∷ stream_tick env signed (record { latest = 0; log_sequence = 0 })
    ∷ stream_end
    ∷ tick 9
    ∷ []

abbrev port_of : Option System → Option ℤ
port_of none = none
port_of (some s) = some s.config.value.dns_port

-- With both addresses bound the program starts on the port of the environment.
started_test : port_of (start boot) ≡ some (pos 5353)
unfolding start Text-discrete kaven_dns.Go.atoi kaven_dns.Config.load kaven_dns.Config.sanitize
    kaven_dns.Config.defaults kaven_dns.Rules.load kaven_dns.DnsServer.Sockets.start
    kaven_dns.Web.Listener.start_locked
started_test = refl

start-run_example :
    (start boot ≡ none)
    ⊎ ((s s' : System) × (start boot ≡ some s)
        × (run events s ≡ some s')
        × IsSound s'
        × ((stop fine s').dns.1.opened ≡ []))
start-run_example = start-run boot events fine refl refl refl

abbrev stored : System
stored = record state {
  config = record { value = settings; disk = record { file = some settings; temporary = absent } };
  rules = record {
    rules = [];
    path = codes "rules.json";
    disk = record { file = some []; temporary = absent };
  };
  history = History.new (pos 10_000) (pos 1) 7;
  auth = record state.auth { path = codes "sessions.json"; dirty = true };
}

abbrev unset : Boot
unset = record boot { environment = λ name. [] }

abbrev blank : Disk Saved
blank = record { file = none; temporary = absent }

-- A package that gives back what it was given.
abbrev same : Json
same = record { config = λ c. c; rules = λ rs. rs; history = λ t. t; sessions = λ ts. ts }
