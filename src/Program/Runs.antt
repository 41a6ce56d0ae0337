-- ===== src/Program/Runs.antt =====
-- The program stays sound from its start to its end.
use kaven_dns.Cache.Reads.{sweep_lem}
use kaven_dns.Config.Sanitize.{sanitize-IsClean, IsClean}
use kaven_dns.DnsServer.Answering.{handle-IsAnswered}
use kaven_dns.DnsServer.Query.{Request, Times}
use kaven_dns.DnsServer.Restart.{
  IsConsistent, started-IsConsistent, start_pair-Bound, shutdown-IsConsistent,
}
use kaven_dns.DnsServer.Sockets.{Server, Os, Binding, start_pair, started}
use kaven_dns.LogStore.Bounds.{IsBounded, run-IsBounded}
use kaven_dns.Persist.{Outcome}
use kaven_dns.Prelude.{
  none, some, [], ◌∷◌, true, false, inl, inr, refl, pos, arith, ◌≡◌, List, Text, Bool, Option, ◌⊎◌,
  ℤ, ap,
}
use kaven_dns.Program.Defs.{
  stream_end, stream_tick, start, opened_dns, opened_web, run, step, stop, after_request,
  after_query, request, query, tick, Boot, Event, no_socket,
}
use kaven_dns.Resolver.World.{World}
use kaven_dns.Rules.Accepting.{AllAccepted}
use kaven_dns.Web.Applying.{Served}
use kaven_dns.Web.Guarding.{serve-IsServed}
use kaven_dns.Web.Invariant.{IsSound, IsAtMostOne, with_cache, with_history}
use kaven_dns.Web.Listener.{Listener, start_locked}
use kaven_dns.Web.Routes.{serve}
use kaven_dns.Web.Serving.{IsServed}
use kaven_dns.Web.State.{System}
use kaven_dns.Web.Watching.{tick-IsSound, close_stream-IsSound}
use kaven_dns.Cache
use kaven_dns.Cache.Invariant
use kaven_dns.Config
use kaven_dns.Rules
use kaven_dns.DnsServer.Sockets

-- The next state is there, and it is sound.
abbrev pub Goes : Option System → Type 0
Goes x = (s : System) × (x ≡ some s) × IsSound s

after_request-Goes : (x : Served) → IsServed x → Goes (after_request x)
unfolding after_request
after_request-Goes x v = (v.state, ap after_request v.ends, v.sound)

query-Goes :
    (w : World) (error : Text) (times : Times) (r : Request) (s : System)
    → IsSound s
    → Goes (step (query w error times r) s)
unfolding step after_query
query-Goes w error times r s v =
    elim (handle-IsAnswered w s.config.value s.rules error times r s.cache s.history v.cache) [
      | inl (_, e) ↦ (
        record s { cache = s.cache; history = s.history },
        ap (after_query s) e,
        with_history (record s { cache = s.cache }) s.history (with_cache s s.cache v v.cache),
      )
      | inr a ↦ (
        record s { cache = a.after; history = a.history },
        ap (after_query s) a.outcome,
        with_history (record s { cache = a.after }) a.history (with_cache s a.after v a.valid),
      )
    ]

step-Goes : (e : Event) (s : System) → IsSound s → Goes (step e s)
unfolding step
step-Goes (request env h route) s v =
    after_request-Goes (serve env h route s) (serve-IsServed env h route s v)
step-Goes (query w error times r) s v = query-Goes w error times r s v
step-Goes (stream_tick env h stream) s v = (_, refl, tick-IsSound env h s stream v)
step-Goes stream_end s v = (_, refl, close_stream-IsSound s v)
step-Goes (tick now) s v =
    let cache = Cache.sweep s.cache now in
    (record s { cache = cache }, refl, with_cache s cache v (sweep_lem s.cache now v.cache).0)

run-Goes : (es : List Event) (s : System) → IsSound s → Goes (run es s)
unfolding run
run-Goes [] s v = (s, refl, v)
run-Goes (e ∷ es) s v =
    let (s₁, h, v₁) = step-Goes e s v in
    let (s₂, k, v₂) = run-Goes es s₁ v₁ in (s₂, rw (h, run) k, v₂)

-- The program ended with an error, or it started sound.
abbrev pub Started : Option System → Type 0
Started x = (x ≡ none) ⊎ Goes x

opened_web-Started :
    (b : Boot) (c : Config.Config) (rules : Rules.Store) (dns : Server × Os)
    (x : (Listener × Os) × Bool)
    → b.config_disk.file ≡ none
    → IsClean c
    → AllAccepted rules.rules
    → IsConsistent dns.0 dns.1
    → IsAtMostOne x.0.0 x.0.1
    → Started (opened_web b c rules dns x)
unfolding opened_web kaven_dns.LogStore.Defs.new kaven_dns.LogStore.Bounds.run
opened_web-Started b c rules dns (web, false) e clean all v one = inl refl
opened_web-Started b c rules dns (web, true) e clean all v one = inr (
  _,
  refl,
  record {
    config = record { clean = clean; on_disk = inl e };
    cache = Invariant.new-IsValid c.cache_max_entries;
    rules = all;
    logs = run-IsBounded (pos 200) [];
    dns = v;
    web = one;
    streams = omega arith;
  },
)

start_locked-IsAtMostOne :
    (bound : Bool) (address : Text) (port : ℤ) (l : Listener)
    → IsAtMostOne
        (start_locked bound address port (l, no_socket)).0.0
        (start_locked bound address port (l, no_socket)).0.1
unfolding start_locked
start_locked-IsAtMostOne true address port l = inr (0, refl, refl)
start_locked-IsAtMostOne false address port l = inl refl

opened_dns-Started :
    (b : Boot) (c : Config.Config) (rules : Rules.Store) (x : (Server × Os) × Bool)
    → b.config_disk.file ≡ none
    → IsClean c
    → AllAccepted rules.rules
    → IsConsistent x.0.0 x.0.1
    → Started (opened_dns b c rules x)
unfolding opened_dns
opened_dns-Started b c rules (dns, false) e clean all v = inl refl
opened_dns-Started b c rules (dns, true) e clean all v =
    let nowhere : Listener = record { listener = none; address = []; port = pos 0 } in
    opened_web-Started b c rules dns
      (start_locked b.web_bound c.web_bind_address c.web_port (nowhere, no_socket)) e clean all v
      (start_locked-IsAtMostOne b.web_bound c.web_bind_address c.web_port nowhere)

start-Started :
    (b : Boot)
    → b.config_file ≡ Config.missing
    → b.config_disk.file ≡ none
    → b.rules_file ≡ Rules.missing
    → Started (start b)
unfolding start kaven_dns.Config.load kaven_dns.Rules.load kaven_dns.DnsServer.Sockets.start
start-Started b f e r =
    let c = Config.sanitize (Config.apply_environment b.environment Config.defaults) in
    let rules : Rules.Store = record { rules = []; path = b.rules_path; disk = b.rules_disk } in
    let pair = start_pair b.binding no_socket in
    rw (f, r)
      (opened_dns-Started b c rules (started c.bind_address c.dns_port Sockets.new pair) e
        (sanitize-IsClean (Config.apply_environment b.environment Config.defaults)) tt
        (started-IsConsistent c.bind_address c.dns_port pair
          (start_pair-Bound b.binding no_socket refl)))

-- On a first start, where there is no file of the configuration or of the rules, the program ends with an
-- error, or it runs: then any sequence of requests to the console, DNS queries, ticks, also those of the
-- streams of events, and ends of such streams is processed without a fault and leaves it sound, and at the
-- end it holds no socket for DNS.
pub start-run :
    (b : Boot) (es : List Event) (o : Outcome)
    → b.config_file ≡ Config.missing
    → b.config_disk.file ≡ none
    → b.rules_file ≡ Rules.missing
    → (start b ≡ none)
      ⊎ ((s s' : System) × (start b ≡ some s)
          × (run es s ≡ some s')
          × IsSound s'
          × ((stop o s').dns.1.opened ≡ []))
unfolding stop kaven_dns.DnsServer.Sockets.shutdown
start-run b es o f e r = elim (start-Started b f e r) [
  | inl h ↦ inl h
  | inr (s, h, v) ↦
      let (s', k, v') = run-Goes es s v in
      inr (s, s', h, k, v', (shutdown-IsConsistent s'.dns.0 s'.dns.1 v'.dns).all_held)
]
