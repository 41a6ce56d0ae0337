-- ===== src/Web/Routes.antt =====
-- The table of routes, and the protection of all but those of the setup and the login.
use kaven_dns.Auth.Defs.{check, Manager}
use kaven_dns.Prelude.{none, some, true, false, List, Text, Bool, Option, ℤ}
use kaven_dns.Rules.{Rule}
use kaven_dns.Web.Applying.{Served, put_config}
use kaven_dns.Web.Events.{setup_status, stats, open_stream, check_update}
use kaven_dns.Web.Handlers.{
  shutdown, web_resolve, get_config, flush_cache, logs, reset_queries, queries, handle_logout,
  QueryValues, handle_login, session_ttl,
}
use kaven_dns.Web.RuleRequests.{import_rules, remove_rule, update_rule, add_rule}
use kaven_dns.Web.Settings.{Setting}
use kaven_dns.Web.Setup.{setup, SetupBody, setup_check}
use kaven_dns.Web.State.{
  rules_body, ok_body, done, not_signed_in, not_json, fail, Headers, token_of, System, Env,
}

-- What a request asks for, with its body.
pub data Route : Type 0 where
  setup_status_route : Route
  setup_check_route : Option (ℤ × Text) → Route
  setup_route : Option SetupBody → Route
  login_route : Option Text → Route
  auth_check_route logout_route list_rules_route : Route
  add_rule_route : Option Rule → Route
  update_rule_route : Text → Option (Rule → Option Rule) → Route
  remove_rule_route : Text → Route
  import_rules_route : Option (List Rule × Text) → Route
  queries_route : QueryValues → Route
  reset_queries_route : Route
  logs_route : Text → Route
  flush_cache_route get_config_route : Route
  -- the current password and the settings of the body
  put_config_route : Option (Text × List Setting) → Route
  resolve_route : Option (Text × Text) → Route
  stats_route events_route update_route : Route
  shutdown_route : Route

pub data Access : Type 0 where
  public protected : Access

-- Which routes stand behind `protect`.
unfoldable pub access : Route → Access
access setup_status_route = public
access (setup_check_route body) = public
access (setup_route body) = public
access (login_route body) = public
access _ = protected

unfoldable pub handle_put_config : Env → Option (Text × List Setting) → System → Served
unfolding put_config
handle_put_config env none s = some (s, fail 400 not_json)
handle_put_config env (some (current, settings)) s = put_config env current settings s

-- The handler of each route.
unfoldable pub handler : Env → Headers → Route → System → Served
unfolding setup_check setup handle_login handle_logout add_rule update_rule remove_rule import_rules
    queries reset_queries logs flush_cache get_config handle_put_config web_resolve shutdown
    setup_status stats open_stream check_update
handler env h setup_status_route s = some (s, setup_status env s)
handler env h (setup_check_route body) s = some (s, setup_check env body s)
handler env h (setup_route body) s = setup env body s
handler env h (login_route body) s = some (handle_login env h body s)
handler env h auth_check_route s = some (s, done ok_body)
handler env h logout_route s = some (handle_logout env h s)
handler env h list_rules_route s = some (s, done (rules_body s.rules.rules))
handler env h (add_rule_route body) s = some (add_rule env body s)
handler env h (update_rule_route id body) s = some (update_rule env id body s)
handler env h (remove_rule_route id) s = some (remove_rule env id s)
handler env h (import_rules_route body) s = some (import_rules env body s)
handler env h (queries_route q) s = some (s, queries q s)
handler env h reset_queries_route s = some (reset_queries env s)
handler env h (logs_route limit) s = some (s, logs limit s)
handler env h flush_cache_route s = some (flush_cache env s)
handler env h get_config_route s = some (s, get_config s)
handler env h (put_config_route body) s = handle_put_config env body s
handler env h (resolve_route body) s = web_resolve env body s
handler env h stats_route s = some (stats env s)
handler env h events_route s = some (open_stream env s)
handler env h update_route s = some (check_update env s)
handler env h shutdown_route s = some (shutdown env s)

-- `protect`, with what `Check` gives.
unfoldable pub guarded : (System → Served) → System → Manager × Bool → Served
guarded next s (m, false) = some (record s { auth = m }, fail 401 not_signed_in)
guarded next s (m, true) = next (record s { auth = m })

unfoldable pub protect : Env → Headers → (System → Served) → System → Served
unfolding guarded token_of session_ttl kaven_dns.Auth.Defs.check
protect env h next s =
    guarded next s
      (check (session_ttl s) env.session_outcome (token_of h) env.checked_at env.extended_at s.auth)

unfoldable pub by_access : Access → Env → Headers → (System → Served) → System → Served
unfolding protect
by_access public env h next s = next s
by_access protected env h next s = protect env h next s

unfoldable pub serve : Env → Headers → Route → System → Served
unfolding by_access access handler
serve env h route s = by_access (access route) env h (handler env h route) s
