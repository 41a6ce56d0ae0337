-- ===== src/Web/Setup.antt =====
-- The first setup: `setup` and `setupCheck`.
use kaven_dns.Auth.Password.{hash_password}
use kaven_dns.DnsServer.Sockets.{same_ℤ}
use kaven_dns.Prelude.{
  none, some, inl, pos, Text, Option, length, ltb, ◌||◌, ◌&&◌, text_eq, ltb_ℤ, is_empty, ℤ, not,
  if◌then◌else◌, codes,
}
use kaven_dns.Web.Settings.{in_port_range}
use kaven_dns.Web.State.{
  internal, short_password, check_body, setup_body, bad_address, done, bad_port, web_failed,
  not_json, setup_done, dns_failed, config_refused, fail, Response, note, System, Probe, Env,
}
use kaven_dns.Config
use kaven_dns.Web.Applying.{
  Applied, Served, applied, apply_listeners, dns_refused, new_web_url, update_text, web_refused,
}

pub record SetupBody : Type 0 where
  pub password : Text
  pub dns_port : ℤ
  pub bind_address : Text
  pub web_bind_address : Text

unfoldable pub first_settings : SetupBody → Text → Config.Config → Config.Config
first_settings body hash c = record c {
  password_hash = hash;
  dns_port = if ltb_ℤ (pos 0) body.dns_port then body.dns_port else c.dns_port;
  bind_address = if Config.is_ip body.bind_address then body.bind_address else c.bind_address;
  web_bind_address =
      if Config.is_ip body.web_bind_address then body.web_bind_address else c.web_bind_address;
}

unfoldable pub setup_applied : Env → Config.Config → Config.Config → System × Applied → Served
unfolding note new_web_url
setup_applied env old updated (s, dns_refused) = some (s, fail 400 dns_failed)
setup_applied env old updated (s, web_refused) = some (s, fail 400 web_failed)
setup_applied env old updated (s, applied) = some (
  note env (codes "setup") (codes "first-run setup completed") (codes "log") s,
  done (setup_body (new_web_url updated old)),
)

unfoldable pub setup_updated :
    Env → Config.Config → System → Config.Store × Option Config.UpdateError → Served
unfolding setup_applied apply_listeners
setup_updated env old s (config, some e) =
    some (record s { config = config }, fail 500 (config_refused (update_text env e)))
setup_updated env old s (config, none) =
    setup_applied env old config.value
      (apply_listeners env old config.value (record s { config = config }))

-- `setup`. A body that is not valid JSON is `none`.
unfoldable pub setup : Env → Option SetupBody → System → Served
unfolding first_settings setup_updated kaven_dns.Config.update kaven_dns.Auth.Password.hash_password
setup env body s =
    let old = s.config.value in
    if not (is_empty old.password_hash) then some (s, fail 409 setup_done) else elim body [
      | none ↦ some (s, fail 400 not_json)
      | some b ↦
          if ltb (length b.password) 6
          then some (s, fail 400 short_password)
          else elim (hash_password env.crypto env.salt b.password) [
            | none ↦ some (s, fail 500 internal)
            | some hash ↦
                setup_updated env old s
                  (Config.update (env.outcome 0) (λ c. inl (first_settings b hash c)) s.config)
          ]
    ]

unfoldable pub state_text : Option Text → Text
state_text none = codes "ok"
state_text (some e) = e

-- `probeDNS`.
unfoldable pub probe_dns : Probe → Text × Text
unfolding state_text
probe_dns p = elim p.unresolved [
  | some e ↦ (e, e)
  | none ↦ (state_text p.udp_error, state_text p.tcp_error)
]

unfoldable pub check_address : Env → Config.Config → ℤ → Text → Response
unfolding probe_dns
check_address env c port address =
    let self =
      same_ℤ port c.dns_port
      && (text_eq address c.bind_address || text_eq c.bind_address (codes "0.0.0.0")) in
    let states = if self then (codes "ok", codes "ok") else probe_dns env.probe in
    let available = self || (text_eq states.0 (codes "ok") && text_eq states.1 (codes "ok")) in
    if not (in_port_range port)
    then fail 400 bad_port
    else if not (Config.is_ip address)
    then fail 400 bad_address
    else done (check_body available states self)

-- `setupCheck`, for a port and an address.
unfoldable pub setup_check : Env → Option (ℤ × Text) → System → Response
unfolding check_address
setup_check env body s =
    if not (is_empty s.config.value.password_hash) then fail 409 setup_done else elim body [
      | none ↦ fail 400 not_json
      | some (port, address) ↦
          check_address env s.config.value port
            (if is_empty address then codes "0.0.0.0" else address)
    ]
