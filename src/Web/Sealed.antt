-- ===== src/Web/Sealed.antt =====
-- A request without a session reaches nothing but the login, once a password is set.
use kaven_dns.Auth.Defs.{
  login, Manager, check, LoginResult, locked, incorrect_password, no_session, logged_in,
}
use kaven_dns.Auth.Password.{verify_password}
use kaven_dns.Prelude.{none, some, true, false, refl, ◌≡◌, Text, Bool, Option, is_empty}
use kaven_dns.Web.Applying.{Served}
use kaven_dns.Web.Events.{setup_status}
use kaven_dns.Web.Handlers.{signed_in, handle_login, session_ttl}
use kaven_dns.Web.Routes.{
  setup_status_route, login_route, setup_route, setup_check_route, serve, handler, protect, guarded,
  by_access, access, Route,
}
use kaven_dns.Web.Setup.{setup_check, setup}
use kaven_dns.Web.State.{
  setup_done, remote_ip, not_signed_in, not_json, fail, System, Env, Response, Headers, note,
  token_of,
}
use kaven_dns.LogStore.Defs

-- What is served from the state `s` touches the sessions and failures, and the logs, at most.
pub record IsSealed (s : System) (x : Served) : Type 0 where
  pub auth : Manager
  pub logs : Defs.Store
  pub response : Response
  pub ends : x ≡ some (record s { auth = auth; logs = logs }, response)

signed_in-IsSealed :
    (env : Env) (h : Headers) (s : System) (m : Manager) (r : LoginResult)
    → IsSealed s (some (signed_in env h s (m, r)))
unfolding signed_in note
signed_in-IsSealed env h s m (logged_in t) = record {
  auth = m;
  logs = _;
  response = _;
  ends = refl;
}
signed_in-IsSealed env h s m (locked n) = record { auth = m; logs = _; response = _; ends = refl }
signed_in-IsSealed env h s m incorrect_password = record {
  auth = m;
  logs = _;
  response = _;
  ends = refl;
}
signed_in-IsSealed env h s m no_session = record { auth = m; logs = _; response = _; ends = refl }

handle_login-IsSealed :
    (env : Env) (h : Headers) (body : Option Text) (s : System)
    → IsSealed s (some (handle_login env h body s))
unfolding handle_login
handle_login-IsSealed env h none s = record {
  auth = s.auth;
  logs = s.logs;
  response = fail 400 not_json;
  ends = refl;
}
handle_login-IsSealed env h (some password) s =
    let verify = λ (p : Text). verify_password env.crypto p s.config.value.password_hash in
    let x =
      login verify env.token (session_ttl s) env.session_outcome password (remote_ip h) env.now
        s.auth in
    signed_in-IsSealed env h s x.0 x.1

guarded-IsSealed :
    (next : System → Served) (s : System) (x : Manager × Bool)
    → x.1 ≡ false
    → IsSealed s (guarded next s x)
unfolding guarded
guarded-IsSealed next s (m, true) e = absurd (cc)
guarded-IsSealed next s (m, false) e = record {
  auth = m;
  logs = s.logs;
  response = fail 401 not_signed_in;
  ends = refl;
}

-- Once a password is set, a request whose token `Check` refuses is answered, and whatever it asks for, it
-- changes nothing but the sessions and failures of the logins, and the logs.
pub serve-IsSealed :
    (env : Env) (h : Headers) (route : Route) (s : System)
    → is_empty s.config.value.password_hash ≡ false
    → (check
        (session_ttl s)
        env.session_outcome
        (token_of h)
        env.checked_at
        env.extended_at
        s.auth).1
      ≡ false
    → IsSealed s (serve env h route s)
unfolding serve access by_access protect handler setup
serve-IsSealed env h setup_status_route s e k = record {
  auth = s.auth;
  logs = s.logs;
  response = setup_status env s;
  ends = refl;
}
serve-IsSealed env h (setup_check_route body) s e k = record {
  auth = s.auth;
  logs = s.logs;
  response = setup_check env body s;
  ends = refl;
}
serve-IsSealed env h (setup_route body) s e k = record {
  auth = s.auth;
  logs = s.logs;
  response = fail 409 setup_done;
  ends = rw (e, setup) refl;
}
serve-IsSealed env h (login_route body) s e k = handle_login-IsSealed env h body s
serve-IsSealed env h route s e k = guarded-IsSealed (handler env h route) s _ k
