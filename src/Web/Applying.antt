-- ===== src/Web/Applying.antt =====
-- The listeners follow the settings, and the handler `putConfig`.
use kaven_dns.DnsServer.Sockets.{Os, same_ℤ, restart, Server}
use kaven_dns.Persist.{Outcome}
use kaven_dns.Prelude.{
  none, some, true, false, inl, inr, List, Text, Bool, Option, ◌||◌, ◌⊎◌, text_eq, ℤ, not,
  if◌then◌else◌, codes,
}
use kaven_dns.Web.Listener.{move, Listener}
use kaven_dns.Web.Settings.{Setting, apply_settings, Change}
use kaven_dns.Web.State.{
  changed_body, done, web_failed, dns_failed, config_refused, fail, Response, note, System, Env,
}
use kaven_dns.Config
use kaven_dns.Cache
use kaven_dns.History

abbrev pub dns_changed : Config.Config → Config.Config → Bool
dns_changed updated old =
    not (same_ℤ updated.dns_port old.dns_port)
    || not (text_eq updated.bind_address old.bind_address)

abbrev pub web_changed : Config.Config → Config.Config → Bool
web_changed updated old =
    not (same_ℤ updated.web_port old.web_port)
    || not (text_eq updated.web_bind_address old.web_bind_address)

pub data Applied : Type 0 where
  applied dns_refused web_refused : Applied

-- `_ = s.deps.Config.Replace(old)`.
unfoldable pub put_back : Outcome → Config.Config → System → System
unfolding kaven_dns.Config.replace
put_back o old s = record s { config = (Config.replace o old s.config).0 }

-- The DNS service goes back, if it was moved.
unfoldable pub undo_dns : Env → Bool → Config.Config → System → System
unfolding kaven_dns.DnsServer.Sockets.restart
undo_dns env false old s = s
undo_dns env true old s = record s {
  dns = (restart env.dns_undo env.dns_undo_old old.bind_address old.dns_port s.dns).0;
}

unfoldable pub after_web :
    Env → Bool → Config.Config → System → (Listener × Os) × Bool → System × Applied
unfolding put_back undo_dns
after_web env dns_moved old s (web, true) = (record s { web = web }, applied)
after_web env dns_moved old s (web, false) = (
  put_back (env.outcome 1) old (undo_dns env dns_moved old (record s { web = web })),
  web_refused,
)

unfoldable pub apply_web : Env → Bool → Config.Config → Config.Config → System → System × Applied
unfolding after_web kaven_dns.Web.Listener.move
apply_web env dns_moved old updated s =
    if web_changed updated old
    then after_web env dns_moved old s
        (move env.web_new env.web_old updated.web_bind_address updated.web_port s.web)
    else (s, applied)

unfoldable pub after_dns :
    Env → Config.Config → Config.Config → System → (Server × Os) × Bool → System × Applied
unfolding put_back apply_web
after_dns env old updated s (dns, true) = apply_web env true old updated (record s { dns = dns })
after_dns env old updated s (dns, false) =
    (put_back (env.outcome 1) old (record s { dns = dns }), dns_refused)

-- Both handlers move the listeners alike.
unfoldable pub apply_listeners : Env → Config.Config → Config.Config → System → System × Applied
unfolding after_dns apply_web kaven_dns.DnsServer.Sockets.restart
apply_listeners env old updated s =
    if dns_changed updated old
    then after_dns env old updated s
        (restart env.dns_new env.dns_old updated.bind_address updated.dns_port s.dns)
    else apply_web env false old updated s

-- The host and the port of the new address of the console.
unfoldable pub new_web_url : Config.Config → Config.Config → Option (Text × ℤ)
new_web_url updated old =
    let host = updated.web_bind_address in
    let shown =
      if text_eq host (codes "0.0.0.0") || text_eq host (codes "::")
      then codes "127.0.0.1"
      else host in
    if web_changed updated old then some (shown, updated.web_port) else none

-- The state and the response. `none` is a fault of the cache.
abbrev pub Served : Type 0
Served = Option (System × Response)

-- The text of an error of `Update`.
abbrev pub update_text : Env → Config.UpdateError → Text
update_text env (Config.refused message) = message
update_text env Config.write_failed = env.error_text

unfoldable pub config_applied :
    Env → Config.Config → Config.Config → Bool → System × Applied → Served
unfolding note new_web_url kaven_dns.History.set_limits kaven_dns.Cache.set_max_entries
config_applied env old updated changed (s, dns_refused) = some (s, fail 400 dns_failed)
config_applied env old updated changed (s, web_refused) = some (s, fail 400 web_failed)
config_applied env old updated changed (s, applied) =
    let history =
      History.set_limits s.history updated.query_history_max_entries updated.query_retention_days
        env.now in
    elim (Cache.set_max_entries s.cache updated.cache_max_entries) [
      | none ↦ none
      | some cache ↦ some (
        note env (codes "config") (codes "configuration updated") (codes "log")
            (record s { history = history; cache = cache }),
        done (changed_body changed (new_web_url updated old)),
      )
    ]

unfoldable pub config_updated :
    Env → Config.Config → Bool → System → Config.Store × Option Config.UpdateError → Served
unfolding config_applied apply_listeners
config_updated env old changed s (config, some e) =
    some (record s { config = config }, fail 400 (config_refused (update_text env e)))
config_updated env old changed s (config, none) =
    config_applied env old config.value changed
      (apply_listeners env old config.value (record s { config = config }))

abbrev pub changed_config : Change ⊎ Text → Config.Config ⊎ Text
changed_config (inl (c, _)) = inl c
changed_config (inr message) = inr message

abbrev pub password_changed : Change ⊎ Text → Bool
password_changed (inl (_, changed)) = changed
password_changed (inr _) = false

-- The function that `putConfig` gives `Update`.
abbrev pub change_by : Env → Text → Text → List Setting → Config.Config → Config.Config ⊎ Text
change_by env current stored settings c =
    changed_config (apply_settings env current stored settings (c, false))

-- `putConfig`, for a body that was decoded.
unfoldable pub put_config : Env → Text → List Setting → System → Served
unfolding apply_settings config_updated kaven_dns.Config.update
put_config env current settings s =
    let old = s.config.value in
    let stored = old.password_hash in
    config_updated env old
      (password_changed (apply_settings env current stored settings (old, false))) s
      (Config.update (env.outcome 0) (change_by env current stored settings) s.config)
