-- ===== src/Web/Guarding.antt =====
-- Any sequence of requests; and what a request without a session reaches.
use kaven_dns.Auth.Defs.{
  Manager, check, login, logout, LoginResult, locked, incorrect_password, no_session, logged_in,
}
use kaven_dns.Auth.Password.{verify_password}
use kaven_dns.Cache.Runs.{flush-IsValid}
use kaven_dns.Prelude.{none, some, true, false, List, Text, Bool, Option, codes}
use kaven_dns.Rules.{Rule}
use kaven_dns.Rules.Accepting.{remove-AllAccepted}
use kaven_dns.Web.Editing.{
  add_rule-IsSound, update_rule-IsSound, removed_rule-IsSound, import_rules-IsSound,
}
use kaven_dns.Web.Events.{setup_status, stats, open_stream, check_update}
use kaven_dns.Web.Handlers.{
  get_config, logs, queries, handle_logout, signed_in, handle_login, reset_queries, flush_cache,
  shutdown, session_ttl,
}
use kaven_dns.Web.Invariant.{IsSound, with_auth, with_history, with_cache, note-IsSound}
use kaven_dns.Web.Routes.{
  update_route, events_route, stats_route, setup_status_route, shutdown_route, get_config_route,
  flush_cache_route, reset_queries_route, list_rules_route, logout_route, auth_check_route,
  resolve_route, put_config_route, logs_route, queries_route, import_rules_route, remove_rule_route,
  update_rule_route, add_rule_route, login_route, setup_route, setup_check_route, handle_put_config,
  serve, handler, protect, guarded, by_access, access, Route, Access, public, protected,
}
use kaven_dns.Web.RuleRequests.{import_rules, update_rule, add_rule, remove_rule}
use kaven_dns.Web.Serving.{IsServed, served, web_resolve-IsServed, setup-IsServed}
use kaven_dns.Web.Settings.{Setting}
use kaven_dns.Web.Settling.{put_config-IsSettled}
use kaven_dns.Web.Setup.{setup_check}
use kaven_dns.Web.State.{
  rules_body, ok_body, not_json, remote_ip, not_signed_in, System, Env, Headers, fail, done,
  token_of,
}
use kaven_dns.Web.Watching.{state-IsSound, open_stream-IsSound, check_update-IsSound}
use kaven_dns.Cache
use kaven_dns.History
use kaven_dns.Rules

signed_in-IsSound :
    (env : Env) (h : Headers) (s : System) (m : Manager) (r : LoginResult)
    → IsSound s
    → IsSound (signed_in env h s (m, r)).0
unfolding signed_in
signed_in-IsSound env h s m (logged_in t) v =
    note-IsSound env (codes "auth") _ (codes "log") (record s { auth = m }) (with_auth s m v)
signed_in-IsSound env h s m (locked n) v =
    note-IsSound env (codes "auth") _ (codes "warn") (record s { auth = m }) (with_auth s m v)
signed_in-IsSound env h s m incorrect_password v =
    note-IsSound env (codes "auth") _ (codes "warn") (record s { auth = m }) (with_auth s m v)
signed_in-IsSound env h s m no_session v =
    note-IsSound env (codes "auth") _ (codes "warn") (record s { auth = m }) (with_auth s m v)

handle_login-IsSound :
    (env : Env) (h : Headers) (body : Option Text) (s : System)
    → IsSound s
    → IsSound (handle_login env h body s).0
unfolding handle_login
handle_login-IsSound env h none s v = v
handle_login-IsSound env h (some password) s v =
    let verify = λ (p : Text). verify_password env.crypto p s.config.value.password_hash in
    let x =
      login verify env.token (session_ttl s) env.session_outcome password (remote_ip h) env.now
        s.auth in
    signed_in-IsSound env h s x.0 x.1 v

reset_queries-IsSound : (env : Env) (s : System) → IsSound s → IsSound (reset_queries env s).0
unfolding reset_queries
reset_queries-IsSound env s v =
    let history = (History.reset s.history env.now).0 in
    note-IsSound env (codes "queries") _ (codes "log") (record s { history = history })
      (with_history s history v)

flush_cache-IsSound : (env : Env) (s : System) → IsSound s → IsSound (flush_cache env s).0
unfolding flush_cache
flush_cache-IsSound env s v =
    let cache = (Cache.flush s.cache).0 in
    note-IsSound env (codes "cache") _ (codes "log") (record s { cache = cache })
      (with_cache s cache v (flush-IsValid s.cache v.cache))

shutdown-IsSound : (env : Env) (s : System) → IsSound s → IsSound (shutdown env s).0
unfolding shutdown
shutdown-IsSound env s v =
    note-IsSound env (codes "shutdown") (codes "stopping via the Web console") (codes "log") s v

handle_put_config-IsServed :
    (env : Env) (body : Option (Text × List Setting)) (s : System)
    → IsSound s
    → IsServed (handle_put_config env body s)
unfolding handle_put_config
handle_put_config-IsServed env none s v = served (s, fail 400 not_json) v
handle_put_config-IsServed env (some (current, settings)) s v =
    let (s', r, ends, settled) = put_config-IsSettled env current settings s v in
    record { state = s'; response = r; ends = ends; sound = settled.sound }

handler-IsServed :
    (env : Env) (h : Headers) (route : Route) (s : System)
    → IsSound s
    → IsServed (handler env h route s)
unfolding handler handle_logout remove_rule stats
handler-IsServed env h setup_status_route s v = served (s, setup_status env s) v
handler-IsServed env h (setup_check_route body) s v = served (s, setup_check env body s) v
handler-IsServed env h (setup_route body) s v = setup-IsServed env body s v
handler-IsServed env h (login_route body) s v =
    served (handle_login env h body s) (handle_login-IsSound env h body s v)
handler-IsServed env h auth_check_route s v = served (s, done ok_body) v
handler-IsServed env h logout_route s v =
    served (handle_logout env h s) (with_auth s (logout env.session_outcome (token_of h) s.auth) v)
handler-IsServed env h list_rules_route s v = served (s, done (rules_body s.rules.rules)) v
handler-IsServed env h (add_rule_route body) s v =
    served (add_rule env body s) (add_rule-IsSound env body s v)
handler-IsServed env h (update_rule_route id body) s v =
    served (update_rule env id body s) (update_rule-IsSound env id body s v)
handler-IsServed env h (remove_rule_route id) s v = served (remove_rule env id s) (
    removed_rule-IsSound env id s (Rules.remove (env.outcome 0) id s.rules) v
      (remove-AllAccepted (env.outcome 0) id s.rules v.rules))
handler-IsServed env h (import_rules_route body) s v =
    served (import_rules env body s) (import_rules-IsSound env body s v)
handler-IsServed env h (queries_route q) s v = served (s, queries q s) v
handler-IsServed env h reset_queries_route s v =
    served (reset_queries env s) (reset_queries-IsSound env s v)
handler-IsServed env h (logs_route limit) s v = served (s, logs limit s) v
handler-IsServed env h flush_cache_route s v =
    served (flush_cache env s) (flush_cache-IsSound env s v)
handler-IsServed env h get_config_route s v = served (s, get_config s) v
handler-IsServed env h (put_config_route body) s v = handle_put_config-IsServed env body s v
handler-IsServed env h (resolve_route body) s v = web_resolve-IsServed env body s v
handler-IsServed env h stats_route s v = served (stats env s) (state-IsSound env.moment s v)
handler-IsServed env h events_route s v = served (open_stream env s) (open_stream-IsSound env s v)
handler-IsServed env h update_route s v = served (check_update env s) (check_update-IsSound env s v)
handler-IsServed env h shutdown_route s v = served (shutdown env s) (shutdown-IsSound env s v)

guarded-IsServed :
    (env : Env) (h : Headers) (route : Route) (s : System) (x : Manager × Bool)
    → IsSound s
    → IsServed (guarded (handler env h route) s x)
unfolding guarded
guarded-IsServed env h route s (m, false) v =
    served (record s { auth = m }, fail 401 not_signed_in) (with_auth s m v)
guarded-IsServed env h route s (m, true) v =
    handler-IsServed env h route (record s { auth = m }) (with_auth s m v)

by_access-IsServed :
    (a : Access) (env : Env) (h : Headers) (route : Route) (s : System)
    → IsSound s
    → IsServed (by_access a env h (handler env h route) s)
unfolding by_access protect
by_access-IsServed public env h route s v = handler-IsServed env h route s v
by_access-IsServed protected env h route s v =
    guarded-IsServed env h route s
      (check (session_ttl s) env.session_outcome (token_of h) env.checked_at env.extended_at s.auth)
      v

-- Any request, with or without a session, is served without a fault and leaves the program sound,
-- whatever the disk and the operating system do.
pub serve-IsServed :
    (env : Env) (h : Headers) (route : Route) (s : System)
    → IsSound s
    → IsServed (serve env h route s)
unfolding serve
serve-IsServed env h route s v = by_access-IsServed (access route) env h route s v
