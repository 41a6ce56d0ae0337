-- ===== src/Program/Defs.antt =====
-- The start of the program, the events while it runs, and its end. The lines that it logs are left
-- out, and so are the file of the history and the listener of the console at the end.
use kaven_dns.Auth.Defs.{load, close}
use kaven_dns.DnsServer.Query.{Request, Times, Handled, handle}
use kaven_dns.DnsServer.Sockets.{Server, Os, Binding}
use kaven_dns.History.Defs.{Entry, Stats}
use kaven_dns.Persist.{Disk, Outcome}
use kaven_dns.Prelude.{none, some, [], ◌∷◌, true, false, pos, ℕ, List, Text, Bool, Option}
use kaven_dns.Resolver.World.{World}
use kaven_dns.SystemInfo.Defs.{Sample, new_monitor}
use kaven_dns.Web.Applying.{Served}
use kaven_dns.Web.Listener.{Listener, start_locked}
use kaven_dns.Web.Routes.{Route, serve}
use kaven_dns.Web.Shown.{Stream}
use kaven_dns.Web.State.{System, Env, Headers}
use kaven_dns.Web.Events
use kaven_dns.Cache
use kaven_dns.Config
use kaven_dns.History
use kaven_dns.History.Saved
use kaven_dns.LogStore.Defs
use kaven_dns.Rules
use kaven_dns.DnsServer.Sockets

-- What the program finds at its start. A history that is missing or cannot be read is `none`.
pub record Boot : Type 0 where
  pub environment : Text → Text
  pub config_file : Config.FileRead
  pub config_disk : Disk Config.Config
  pub rules_file : Rules.FileRead
  pub rules_path : Text
  pub rules_disk : Disk (List Rules.Rule)
  pub history_file : Option (List Entry × Stats × ℕ)
  pub sessions_path : Text
  pub sessions_file : Option (List (Text × ℕ))
  pub sessions_disk : Disk (List (Text × ℕ))
  pub binding : Binding
  pub web_bound : Bool
  -- what the monitor reads first
  pub first_reading : Sample
  pub now : ℕ

unfoldable pub first_history : Boot → Config.Config → History.Store
unfolding kaven_dns.History.Saved.load
first_history b c =
    Saved.load c.query_history_max_entries c.query_retention_days b.history_file b.now

abbrev pub no_socket : Os
no_socket = record { opened = []; next = 0 }

unfoldable pub opened_web :
    Boot → Config.Config → Rules.Store → Server × Os → (Listener × Os) × Bool → Option System
unfolding first_history
opened_web b c rules dns (web, false) = none
opened_web b c rules dns (web, true) = some (record {
  config = record { value = c; disk = b.config_disk };
  rules = rules;
  history = first_history b c;
  cache = Cache.new c.cache_max_entries;
  auth = load b.sessions_path b.sessions_disk b.sessions_file b.now;
  logs = Defs.new (pos 200);
  dns = dns;
  web = web;
  monitor = new_monitor b.first_reading b.now;
  streams = 0;
})

unfoldable pub opened_dns :
    Boot → Config.Config → Rules.Store → (Server × Os) × Bool → Option System
unfolding opened_web
opened_dns b c rules (dns, false) = none
opened_dns b c rules (dns, true) =
    let nowhere : Listener = record { listener = none; address = []; port = pos 0 } in
    opened_web b c rules dns
      (start_locked b.web_bound c.web_bind_address c.web_port (nowhere, no_socket))

-- `main` up to its loop, where `none` is the end with an error.
unfoldable pub start : Boot → Option System
unfolding opened_dns
start b = elim (Config.load b.config_file b.environment) [
  | none ↦ none
  | some c ↦ elim (Rules.load b.rules_path b.rules_disk b.rules_file) [
    | none ↦ none
    | some rules ↦
        opened_dns b c rules
          (Sockets.start b.binding c.bind_address c.dns_port (Sockets.new, no_socket))
  ]
]

pub data Event : Type 0 where
  request : Env → Headers → Route → Event
  query : World → Text → Times → Request → Event
  -- a tick of a stream of events, and the end of its request
  stream_tick : Env → Headers → Stream → Event
  stream_end : Event
  -- the tick of the minute
  tick : ℕ → Event

unfoldable pub after_request : Served → Option System
after_request none = none
after_request (some (s, _)) = some s

unfoldable pub after_query : System → Handled → Option System
after_query s none = none
after_query s (some ((cache, history), _)) = some (record s { cache = cache; history = history })

-- `none` is a fault.
unfoldable pub step : Event → System → Option System
unfolding after_request after_query kaven_dns.Web.Events.tick kaven_dns.Web.Events.close_stream
step (request env h route) s = after_request (serve env h route s)
step (query w error times r) s =
    after_query s (handle w s.config.value s.rules error times r (s.cache, s.history))
step (stream_tick env h stream) s = some (Events.tick env h s stream).0
step stream_end s = some (Events.close_stream s)
step (tick now) s = some (record s { cache = Cache.sweep s.cache now })

unfoldable pub run : List Event → System → Option System
unfolding step
run [] s = some s
run (e ∷ es) s = elim (step e s) [ none ↦ none | some s' ↦ run es s' ]

-- The end of `main`, on a signal or on request.
unfoldable pub stop : Outcome → System → System
unfolding kaven_dns.DnsServer.Sockets.shutdown
stop o s = record s { dns = Sockets.shutdown s.dns; auth = close o s.auth }
