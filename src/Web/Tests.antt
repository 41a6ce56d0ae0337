-- ===== src/Web/Tests.antt =====
-- The console at concrete inputs.
use kaven_dns.Auth.Defs.{check}
use kaven_dns.Config.Sanitize.{sanitize-IsClean}
use kaven_dns.DnsServer.Sockets.{close}
use kaven_dns.History.Defs.{Entry}
use kaven_dns.History.Runs.{apply, after_calls, record_call, IsNumbered, IsValid}
use kaven_dns.Persist.{removed, absent, Outcome}
use kaven_dns.Prelude.{
  none, some, [], ◌∷◌, zero, suc, true, false, inl, inr, refl, pos, negsuc, arith, ℕ, ◌≡◌, List,
  Text, Bool, Option, ◌++◌, map, ℤ, ◌⊎◌, codes, Text-discrete,
}
use kaven_dns.Rules.{Rule}
use kaven_dns.Web.Applying.{put_config, Served}
use kaven_dns.Web.Events.{new_entries}
use kaven_dns.Web.Guarding.{serve-IsServed}
use kaven_dns.Web.Imports.{import_rules-IsAnswered, IsAnswered}
use kaven_dns.Web.Invariant.{IsSound}
use kaven_dns.Web.Listener.{move}
use kaven_dns.Web.Localize.{
  chinese, zh_domain, zh_rule_upstream, zh_locked, localize_rule_problems, localize_auth_error,
}
use kaven_dns.Web.Moving.{move-move_stranded}
use kaven_dns.Web.Routes.{serve, Route}
use kaven_dns.Web.RuleRequests.{import_rules}
use kaven_dns.Web.Samples.{stranger, signed, seven, rule, state, local, listening, env}
use kaven_dns.Web.Sealed.{serve-IsSealed, IsSealed}
use kaven_dns.Web.Serving.{IsServed}
use kaven_dns.Web.Settings.{Setting}
use kaven_dns.Web.State.{dns_failed, import_body, Response, token_of, fail, done}
use kaven_dns.Web.Streaming.{shown, shown-IsNumbered, new_entries-record_entry, Step, called}
use kaven_dns.Cache.Invariant
use kaven_dns.History
use kaven_dns.Config
use kaven_dns.Rules

state-IsSound : IsSound state
unfolding Rules.new
state-IsSound = record {
  config = record {
    clean = sanitize-IsClean (record Config.defaults { password_hash = codes "00" });
    on_disk = inl refl;
  };
  cache = Invariant.new-IsValid (pos 100);
  rules = tt;
  logs = (omega arith, omega arith, omega arith);
  dns = record { all_held = refl; both = λ same. absurd (omega (arith, same)); listens = inr refl };
  web = inr (7, refl, refl);
  streams = omega arith;
}

-- The ports and the token of the tests.
abbrev moving : List Setting
moving = Setting.dns_port (λ n. inl (pos 5353)) ∷ []

move-move_stranded_example :
    (move true true local (pos 8080) (move false false local (pos 9090) (listening, seven)).0
      ≡ ((listening, close (some 7) seven), true))
    × ((close (some 7) seven).opened ≡ [])
unfolding Text-discrete
move-move_stranded_example =
    move-move_stranded local (pos 9090) true true listening seven (7, refl, refl) refl refl

import_rules-IsAnswered_example :
    IsAnswered env state
      (rule ∷ rule ∷ record rule { ttl = 0 } ∷ [])
      (codes "merge")
      (import_rules env (some (rule ∷ rule ∷ record rule { ttl = 0 } ∷ [], codes "merge")) state)
import_rules-IsAnswered_example =
    import_rules-IsAnswered env (rule ∷ rule ∷ record rule { ttl = 0 } ∷ []) (codes "merge") state
      state-IsSound

serve-IsServed_example : IsServed (serve env signed (Route.add_rule_route (some rule)) state)
serve-IsServed_example =
    serve-IsServed env signed (Route.add_rule_route (some rule)) state state-IsSound

serve-IsSealed_example :
    IsSealed state (serve env stranger (Route.remove_rule_route (codes "r")) state)
unfolding check token_of Config.sanitize Config.defaults kaven_dns.Prelude.Assoc.lookup
    Text-discrete kaven_dns.Go.has_prefix kaven_dns.Go.trim_prefix
serve-IsSealed_example =
    serve-IsSealed env stranger (Route.remove_rule_route (codes "r")) state refl refl

-- Two rules with one domain and type are both added.
twins_test :
    (import_rules env (some (rule ∷ rule ∷ [], codes "merge")) state).1
    ≡ done (import_body 2 0 0 [])
unfolding import_rules kaven_dns.Web.Import.by_signature kaven_dns.Rules.validate
    kaven_dns.Rules.normalize_domain kaven_dns.Rules.is_domain kaven_dns.Go.fields Text-discrete
    kaven_dns.Go.trim_space kaven_dns.Prelude.Assoc.lookup kaven_dns.Rules.new
    kaven_dns.Go.trim_suffix kaven_dns.Go.to_lower kaven_dns.Prelude.Assoc.mem kaven_dns.Go.split
    kaven_dns.Go.trim_prefix
twins_test = refl

abbrev dns_port_of : Served → Option (ℤ × Response)
dns_port_of none = none
dns_port_of (some (s, r)) = some (s.config.value.dns_port, r)

-- A new port that is taken leaves the old settings.
restored_test : dns_port_of (put_config env [] moving state) ≡ some (pos 53, fail 400 dns_failed)
unfolding put_config Config.sanitize Config.defaults Text-discrete kaven_dns.Persist.write_json
restored_test = refl

abbrev asked : Entry
asked = record {
  time = 7;
  sequence = 0;
  client = local;
  domain = codes "a.test";
  type = codes "A";
  source = codes "fixed";
  rcode = 0;
  latency_ms = 1;
  answers = [];
  rule = [];
  upstream = [];
  error = [];
}

abbrev past : History.Store
past = History.new (pos 100) (pos 0) 0

abbrev steps : List Step
steps =
    called (record_call asked 8 8) ∷ Step.ticked ∷ called (record_call asked 9 9) ∷ Step.ticked ∷ []

recording : Unit {0}
unfolding shown apply new_entries History.record_entry after_calls History.new Text-discrete
    kaven_dns.Go.to_lower kaven_dns.Go.trim_space
recording = tt

shown_test : map (λ e. e.sequence) (shown steps 0 past) ≡ 1 ∷ 2 ∷ []
unfolding recording
shown_test = refl

past-IsValid : IsValid past
unfolding History.new
past-IsValid = (omega arith, omega arith, omega arith)

shown-IsNumbered_example : IsNumbered 0 4 (shown steps 0 past)
unfolding History.new
shown-IsNumbered_example = shown-IsNumbered steps 0 past past-IsValid (omega arith) (omega arith)

abbrev recorded : Entry
recorded = record asked { sequence = 1 }

new_entries-record_entry_example :
    (earlier later : List Entry) × ((new_entries 0
        (after_calls (record_call asked 9 9 ∷ []) (History.record_entry asked 8 8 past).0)).0
      ≡ earlier ++ recorded ∷ later)
unfolding recording
new_entries-record_entry_example =
    new_entries-record_entry asked 8 8 0 (record_call asked 9 9 ∷ []) past []
      (record asked { sequence = 2 } ∷ []) past-IsValid (omega arith) (omega arith) refl

localize_test :
    localize_auth_error (codes "zh-CN") (codes "Too many attempts; try again in 25 seconds")
    ≡ chinese (zh_locked (codes "25"))
unfolding localize_auth_error Text-discrete kaven_dns.Web.Localize.wants_chinese
localize_test = refl
