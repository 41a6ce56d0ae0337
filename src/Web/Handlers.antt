-- ===== src/Web/Handlers.antt =====
-- The handlers of the requests, but for the rules and the settings.
-- A body that was read from JSON is an option: `none` stands for one that is not valid.
use kaven_dns.Auth.Defs.{Manager, LoginResult, logged_in, login, check, logout}
use kaven_dns.Auth.Password.{verify_password}
use kaven_dns.Dns.{Body, a, aaaa, cname, other, rcode_server_failure}
use kaven_dns.Go.{Ip, to4, ip_text, is_loopback, trim_suffix, to_upper, parse_int, itoa}
use kaven_dns.Prelude.{
  none, some, [], ◌∷◌, pos, ℕ, List, Text, Option, not, is_empty, ◌-◌, ◌++◌, ◌*◌, ltb_ℤ, pos_part,
  if◌then◌else◌, codes,
}
use kaven_dns.Resolver.{Resolved, resolve}
use kaven_dns.Rules.{Problem}
use kaven_dns.Web.Applying.{Served}
use kaven_dns.Web.State.{
  login_refused, token_body, resolved_body, ok_body, not_json, logs_body, invalid_query,
  entries_body, count_body, config_body, fail, done, Response, Headers, token_of, remote_ip, note,
  integer, System, Env,
}
use kaven_dns.Cache
use kaven_dns.History
use kaven_dns.Rules
use kaven_dns.LogStore.Defs

-- The values of the URL of `queries`.
pub record QueryValues : Type 0 where
  pub limit : Text
  pub domain : Text
  pub source : Text
  pub status : Text
  pub type : Text
  pub client : Text
  pub rule : Text
  pub since : Text
  pub until : Text

-- The time that a session lives, in milliseconds.
unfoldable pub session_ttl : System → ℕ
session_ttl s = pos_part s.config.value.session_ttl_hours * 3_600_000

unfoldable pub signed_in : Env → Headers → System → Manager × LoginResult → System × Response
unfolding note remote_ip
signed_in env h s (m, logged_in t) = (
  note env (codes "auth") (codes "signed in from " ++ remote_ip h) (codes "log")
      (record s { auth = m }),
  done (token_body t),
)
signed_in env h s (m, refused) = (
  note env (codes "auth") (codes "login failed from " ++ remote_ip h) (codes "warn")
      (record s { auth = m }),
  fail 401 (login_refused refused),
)

unfoldable pub handle_login : Env → Headers → Option Text → System → System × Response
unfolding signed_in session_ttl remote_ip kaven_dns.Auth.Defs.login
    kaven_dns.Auth.Password.verify_password
handle_login env h none s = (s, fail 400 not_json)
handle_login env h (some password) s = signed_in env h s (
    login (λ p. verify_password env.crypto p s.config.value.password_hash) env.token (session_ttl s)
      env.session_outcome password (remote_ip h) env.now s.auth)

unfoldable pub handle_logout : Env → Headers → System → System × Response
unfolding token_of kaven_dns.Auth.Defs.logout
handle_logout env h s =
    (record s { auth = logout env.session_outcome (token_of h) s.auth }, done ok_body)

unfoldable pub filter_of : QueryValues → History.Filter
unfolding integer parse_int
filter_of q =
    let limit = integer q.limit (pos 200) in
    record {
      limit = if ltb_ℤ (pos 1000) limit then pos 1000 else limit;
      domain = q.domain;
      source = q.source;
      status = q.status;
      type = q.type;
      client = q.client;
      rule = q.rule;
      since = parse_int q.since;
      until = parse_int q.until;
    }

unfoldable pub queries : QueryValues → System → Response
unfolding filter_of kaven_dns.History.search
queries q s = done (entries_body (History.search s.history (filter_of q)))

-- The file of the history, which is written here too, is not a part of the state.
unfoldable pub reset_queries : Env → System → System × Response
unfolding note kaven_dns.History.reset
reset_queries env s =
    let (history, cleared) = History.reset s.history env.now in
    (
      note env (codes "queries")
          (codes "reset queries: " ++ itoa cleared ++ codes " entries cleared") (codes "log")
          (record s { history = history }),
      done (count_body cleared),
    )

unfoldable pub logs : Text → System → Response
unfolding integer kaven_dns.LogStore.Defs.snapshot
logs value s =
    let limit = integer value (pos 400) in
    done (logs_body (Defs.snapshot s.logs (if ltb_ℤ (pos 2000) limit then pos 400 else limit)))

unfoldable pub flush_cache : Env → System → System × Response
unfolding note kaven_dns.Cache.flush
flush_cache env s =
    let (cache, flushed) = Cache.flush s.cache in
    (
      note env (codes "cache") (codes "flushed " ++ itoa flushed ++ codes " cached entries")
          (codes "log") (record s { cache = cache }),
      done (count_body flushed),
    )

-- `getConfig` with `publicConfig`.
unfoldable pub get_config : System → Response
get_config s =
    let c = s.config.value in
    done (config_body (record c { password_hash = [] }) (not (is_empty c.password_hash)))

-- The entry for a resolution that the console asks for.
unfoldable pub web_entry : Env → Text → Text → Option Resolved → History.Entry
web_entry env domain type result =
    let blank : History.Entry = record {
      time = env.now;
      sequence = 0;
      client = codes "web-ui";
      domain = domain;
      type = type;
      source = codes "forward";
      rcode = rcode_server_failure;
      latency_ms = env.later - env.now;
      answers = [];
      rule = [];
      upstream = [];
      error = [];
    } in
    elim result [
      | none ↦ record blank { error = env.error_text }
      | some r ↦ record blank {
        source = r.source;
        rcode = r.rcode;
        rule = r.rule_label;
        upstream = r.upstream;
      }
    ]

unfoldable pub web_resolved :
    Env → Text → Text → System → Option (Cache.Cache × Option Resolved) → Served
unfolding web_entry kaven_dns.History.record_entry
web_resolved env domain type s none = none
web_resolved env domain type s (some (cache, result)) =
    let entry = web_entry env domain type result in
    let history = (History.record_entry entry env.later env.later s.history).0 in
    some (
      record s { cache = cache; history = history },
      done (resolved_body domain type (env.later - env.now) result),
    )

unfoldable pub resolve_typed : Env → Text → Text → System → Served
unfolding web_resolved kaven_dns.Resolver.resolve
resolve_typed env domain type s = elim (env.type_number type) [
  | none ↦ some (s, fail 400 invalid_query)
  | some query_type ↦
      if is_empty domain
      then some (s, fail 400 invalid_query)
      else web_resolved env domain type s
          (resolve env.world s.config.value s.rules domain query_type s.cache)
]

-- The name and the type of the body.
unfoldable pub web_resolve : Env → Option (Text × Text) → System → Served
unfolding resolve_typed kaven_dns.Rules.normalize_domain kaven_dns.Go.to_upper
web_resolve env none s = some (s, fail 400 not_json)
web_resolve env (some (domain, type)) s =
    resolve_typed env (Rules.normalize_domain domain) (to_upper type) s

-- The program's end is requested of `main`.
unfoldable pub shutdown : Env → System → System × Response
unfolding note
shutdown env s = (
  note env (codes "shutdown") (codes "stopping via the Web console") (codes "log") s,
  done ok_body,
)

-- `rrValue`: a record of another type is given by its text.
unfoldable pub rr_value : Body → Text
unfolding kaven_dns.Go.trim_suffix kaven_dns.Go.ip_text
rr_value (a ip) = ip_text ip
rr_value (aaaa ip) = ip_text ip
rr_value (cname target) = trim_suffix target (codes ".")
rr_value (other text) = text

-- `localIPs` over the addresses of the interfaces, with `net.ParseCIDR`.
unfoldable pub local_ips : (Text → Option Ip) → List Text → List Text
unfolding kaven_dns.Go.ip_text kaven_dns.Go.is_loopback
local_ips parse_cidr [] = []
local_ips parse_cidr (address ∷ addresses) =
    let rest = local_ips parse_cidr addresses in
    elim (parse_cidr address) [
      | none ↦ rest
      | some ip ↦ elim (to4 ip) [
        | none ↦ rest
        | some _ ↦ if is_loopback ip then rest else ip_text ip ∷ rest
      ]
    ]
