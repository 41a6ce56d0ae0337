-- ===== src/Web/Invariant.antt =====
-- The invariant of the whole program, and the parts of a change of the settings that keep it.
use kaven_dns.Auth.Defs.{Manager}
use kaven_dns.DnsServer.Restart.{IsConsistent, Restarted, moved, kept, lost, restart-Restarted}
use kaven_dns.DnsServer.Sockets.{without, close, Os, Server, Binding, Status, serves, restart}
use kaven_dns.LogStore.Bounds.{IsBounded, apply-IsBounded, record_call}
use kaven_dns.Prelude.{
  [], true, false, inl, inr, refl, arith, ℕ, ◌≡◌, Text, Bool, ◌≤◌, Bool-cases, All, ◌⊎◌, ℤ,
  Option-cases,
}
use kaven_dns.Rules.Accepted.{IsAccepted}
use kaven_dns.SystemInfo.Defs.{Monitor}
use kaven_dns.Web.Events.{event_slots}
use kaven_dns.Web.Listener.{at_address, move, Listener}
use kaven_dns.Web.Moving.{Moved, arrived, returned, stranded, IsListening, freed, moved-Moved}
use kaven_dns.Web.State.{Env, note, System}
use kaven_dns.Cache
use kaven_dns.Cache.Invariant
use kaven_dns.Config
use kaven_dns.Config.Updates
use kaven_dns.History
use kaven_dns.Rules

-- At most the listener's own socket is open.
abbrev pub IsAtMostOne : Listener → Os → Type 0
IsAtMostOne l os = (os.opened ≡ []) ⊎ IsListening l os

-- The configuration is clean and agrees with its file, the cache is consistent, every rule is one that
-- `Validate` accepts, the logs keep their bound, no socket is open that is not held, and no more streams are open
-- than there are places.
pub record IsSound (s : System) : Type 0 where
  pub config : Updates.IsValid s.config
  pub cache : Invariant.IsValid s.cache
  pub rules : All IsAccepted s.rules.rules
  pub logs : IsBounded s.logs
  pub dns : IsConsistent s.dns.0 s.dns.1
  pub web : IsAtMostOne s.web.0 s.web.1
  pub streams : s.streams ≤ event_slots

pub with_config :
    (s : System) (c : Config.Store)
    → IsSound s
    → Updates.IsValid c
    → IsSound (record s { config = c })
with_config s c v valid = record {
  config = valid;
  cache = v.cache;
  rules = v.rules;
  logs = v.logs;
  dns = v.dns;
  web = v.web;
  streams = v.streams;
}

pub with_dns :
    (s : System) (x : Server × Os)
    → IsSound s
    → IsConsistent x.0 x.1
    → IsSound (record s { dns = x })
with_dns s x v valid = record {
  config = v.config;
  cache = v.cache;
  rules = v.rules;
  logs = v.logs;
  dns = valid;
  web = v.web;
  streams = v.streams;
}

pub with_web :
    (s : System) (x : Listener × Os)
    → IsSound s
    → IsAtMostOne x.0 x.1
    → IsSound (record s { web = x })
with_web s x v valid = record {
  config = v.config;
  cache = v.cache;
  rules = v.rules;
  logs = v.logs;
  dns = v.dns;
  web = valid;
  streams = v.streams;
}

pub with_cache :
    (s : System) (c : Cache.Cache)
    → IsSound s
    → Invariant.IsValid c
    → IsSound (record s { cache = c })
with_cache s c v valid = record {
  config = v.config;
  cache = valid;
  rules = v.rules;
  logs = v.logs;
  dns = v.dns;
  web = v.web;
  streams = v.streams;
}

pub with_rules :
    (s : System) (r : Rules.Store)
    → IsSound s
    → All IsAccepted r.rules
    → IsSound (record s { rules = r })
with_rules s r v valid = record {
  config = v.config;
  cache = v.cache;
  rules = valid;
  logs = v.logs;
  dns = v.dns;
  web = v.web;
  streams = v.streams;
}

-- The history and the sessions have their own invariants.
pub with_history : (s : System) (h : History.Store) → IsSound s → IsSound (record s { history = h })
with_history s h v = record {
  config = v.config;
  cache = v.cache;
  rules = v.rules;
  logs = v.logs;
  dns = v.dns;
  web = v.web;
  streams = v.streams;
}

pub with_auth : (s : System) (m : Manager) → IsSound s → IsSound (record s { auth = m })
with_auth s m v = record {
  config = v.config;
  cache = v.cache;
  rules = v.rules;
  logs = v.logs;
  dns = v.dns;
  web = v.web;
  streams = v.streams;
}

pub with_monitor : (s : System) (m : Monitor) → IsSound s → IsSound (record s { monitor = m })
with_monitor s m v = record {
  config = v.config;
  cache = v.cache;
  rules = v.rules;
  logs = v.logs;
  dns = v.dns;
  web = v.web;
  streams = v.streams;
}

pub with_streams :
    (s : System) (n : ℕ) → IsSound s → n ≤ event_slots → IsSound (record s { streams = n })
with_streams s n v few = record {
  config = v.config;
  cache = v.cache;
  rules = v.rules;
  logs = v.logs;
  dns = v.dns;
  web = v.web;
  streams = few;
}

pub note-IsSound :
    (env : Env) (kind text level : Text) (s : System)
    → IsSound s
    → IsSound (note env kind text level s)
unfolding note kaven_dns.LogStore.Bounds.apply
note-IsSound env kind text level s v = record {
  config = v.config;
  cache = v.cache;
  rules = v.rules;
  logs = apply-IsBounded (record_call kind text level env.now) s.logs v.logs;
  dns = v.dns;
  web = v.web;
  streams = v.streams;
}

freed_any : (l : Listener) (os : Os) → IsAtMostOne l os → (close l.listener os).opened ≡ []
unfolding close without
freed_any l os (inl e) = elim (Option-cases l.listener) [
  | inl h ↦ rw (h, close) e
  | inr (n, h) ↦ rw (h, close) (ground (arith, e))
]
freed_any l os (inr v) = freed l os v

Moved-IsAtMostOne :
    (address : Text) (port : ℤ) (l : Listener) (r : (Listener × Os) × Bool)
    → Moved address port l r
    → IsAtMostOne r.0.0 r.0.1
Moved-IsAtMostOne address port l r (arrived n os e) = inr (n, refl, e)
Moved-IsAtMostOne address port l r (returned n os e) = inr (n, refl, e)
Moved-IsAtMostOne address port l r (stranded os e) = inl e

Moved-at_address :
    (address : Text) (port : ℤ) (l : Listener) (r : (Listener × Os) × Bool)
    → Moved address port l r
    → (r.1 ≡ false) ⊎ (at_address r.0.0 address port ≡ true)
Moved-at_address address port l r (arrived n os e) = inr (ground arith)
Moved-at_address address port l r (returned n os e) = inl refl
Moved-at_address address port l r (stranded os e) = inl refl

-- A move, from a listener that may have lost its socket.
pub move-IsAtMostOne :
    (bound again : Bool) (address : Text) (port : ℤ) (l : Listener) (os : Os)
    → IsAtMostOne l os
    → IsAtMostOne
        (move bound again address port (l, os)).0.0
        (move bound again address port (l, os)).0.1
      × (((move bound again address port (l, os)).1 ≡ false)
          ⊎ (at_address (move bound again address port (l, os)).0.0 address port ≡ true))
unfolding move
move-IsAtMostOne bound again address port l os v =
    let reached = moved-Moved bound again address port l (close l.listener os) (freed_any l os v) in
    elim (Bool-cases (at_address l address port)) [
      | inl h ↦ rw (h, move) (v, inr h)
      | inr h ↦
          rw (h, move)
            (Moved-IsAtMostOne address port l _ reached, Moved-at_address address port l _ reached)
    ]

Restarted-serves :
    (address : Text) (port : ℤ) (old : Status) (r : (Server × Os) × Bool)
    → Restarted address port old r
    → (r.1 ≡ false) ⊎ (serves r.0.0.status address port ≡ true)
Restarted-serves address port old r (moved u t os e d) = inr (ground arith)
Restarted-serves address port old r (kept u t os e d) = inl refl
Restarted-serves address port old r (lost os e) = inl refl

-- A restart that reports success serves the address.
pub restart-serves :
    (b again : Binding) (address : Text) (port : ℤ) (s : Server) (os : Os)
    → IsConsistent s os
    → ((restart b again address port (s, os)).1 ≡ false)
      ⊎ (serves (restart b again address port (s, os)).0.0.status address port ≡ true)
restart-serves b again address port s os v = elim (restart-Restarted b again address port s os v) [
  | inl (h, e) ↦ inr (rw e h)
  | inr (_, r) ↦ Restarted-serves address port s.status _ r
]
