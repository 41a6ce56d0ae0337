-- ===== src/Web/Serving.antt =====
-- Every request keeps the program sound.
use kaven_dns.Auth.Password.{hash_password}
use kaven_dns.Go.{to_upper}
use kaven_dns.Prelude.{
  none, some, true, inl, inr, refl, ◌≡◌, Text, Option, codes, ◌-◌, length, ltb, is_empty,
  Option-cases, Bool-cases,
}
use kaven_dns.Resolver.{Resolved}
use kaven_dns.Resolver.Levels.{resolve-EndsValid}
use kaven_dns.Web.Applying.{
  applied, web_refused, dns_refused, new_web_url, apply_listeners, update_text, Applied, Served,
}
use kaven_dns.Web.Handlers.{web_entry, web_resolved, web_resolve, resolve_typed}
use kaven_dns.Web.Invariant.{note-IsSound, with_cache, with_history, with_config, IsSound}
use kaven_dns.Web.Restoring.{apply_listeners-Ended}
use kaven_dns.Web.Setup.{first_settings, setup_updated, setup_applied, SetupBody, setup}
use kaven_dns.Web.State.{
  internal, setup_body, short_password, web_failed, setup_done, resolved_body, invalid_query,
  dns_failed, not_json, config_refused, System, Env, Response, note, fail, done,
}
use kaven_dns.Cache
use kaven_dns.Cache.Invariant
use kaven_dns.Config
use kaven_dns.Config.Updates
use kaven_dns.History
use kaven_dns.Rules

-- A request is served without a fault, and leaves the program sound.
pub record IsServed (x : Served) : Type 0 where
  pub state : System
  pub response : Response
  pub ends : x ≡ some (state, response)
  pub sound : IsSound state

abbrev pub served : (x : System × Response) → IsSound x.0 → IsServed (some x)
served x v = record { state = x.0; response = x.1; ends = refl; sound = v }

web_resolved-IsServed :
    (env : Env) (domain type : Text) (s : System) (c : Cache.Cache) (r : Option Resolved)
    → IsSound s
    → Invariant.IsValid c
    → IsServed (web_resolved env domain type s (some (c, r)))
unfolding web_resolved
web_resolved-IsServed env domain type s c r v valid =
    let entry = web_entry env domain type r in
    let history = (History.record_entry entry env.later env.later s.history).0 in
    served
      (
        record s { cache = c; history = history },
        done (resolved_body domain type (env.later - env.now) r),
      )
      (with_history (record s { cache = c }) history (with_cache s c v valid))

resolve_typed-IsServed :
    (env : Env) (domain type : Text) (s : System)
    → IsSound s
    → IsServed (resolve_typed env domain type s)
unfolding resolve_typed
resolve_typed-IsServed env domain type s v = elim (Option-cases (env.type_number type)) [
  | inl h ↦ rw (h, resolve_typed) (served (s, fail 400 invalid_query) v)
  | inr (n, h) ↦ elim (Bool-cases (is_empty domain)) [
    | inl k ↦ rw (h, k, resolve_typed) (served (s, fail 400 invalid_query) v)
    | inr k ↦
        let (c, r, found, valid) =
          resolve-EndsValid env.world s.config.value s.rules domain n s.cache v.cache in
        rw (h, k, found, resolve_typed) (web_resolved-IsServed env domain type s c r v valid)
  ]
]

pub web_resolve-IsServed :
    (env : Env) (body : Option (Text × Text)) (s : System)
    → IsSound s
    → IsServed (web_resolve env body s)
unfolding web_resolve
web_resolve-IsServed env none s v = served (s, fail 400 not_json) v
web_resolve-IsServed env (some (domain, type)) s v =
    resolve_typed-IsServed env (Rules.normalize_domain domain) (to_upper type) s v

setup_applied-IsServed :
    (env : Env) (old updated : Config.Config) (x : System × Applied)
    → IsSound x.0
    → IsServed (setup_applied env old updated x)
unfolding setup_applied
setup_applied-IsServed env old updated (s, dns_refused) v = served (s, fail 400 dns_failed) v
setup_applied-IsServed env old updated (s, web_refused) v = served (s, fail 400 web_failed) v
setup_applied-IsServed env old updated (s, applied) v =
    let kind = codes "setup" in
    let text = codes "first-run setup completed" in
    served (note env kind text (codes "log") s, done (setup_body (new_web_url updated old)))
      (note-IsSound env kind text (codes "log") s v)

setup_updated-IsServed :
    (env : Env) (s : System) (x : Config.Store × Option Config.UpdateError)
    → IsSound s
    → Updates.IsValid x.0
    → IsServed (setup_updated env s.config.value s x)
unfolding setup_updated
setup_updated-IsServed env s (c, some e) v valid =
    served (record s { config = c }, fail 500 (config_refused (update_text env e)))
      (with_config s c v valid)
setup_updated-IsServed env s (c, none) v valid =
    let s₁ = record s { config = c } in
    let x = apply_listeners env s.config.value c.value s₁ in
    let ended =
      apply_listeners-Ended env s.config.value c.value v.config.clean s₁
        (with_config s c v valid) in
    setup_applied-IsServed env s.config.value c.value x ended.sound

setup_body-IsServed :
    (env : Env) (b : SetupBody) (s : System)
    → IsSound s
    → is_empty s.config.value.password_hash ≡ true
    → IsServed (setup env (some b) s)
unfolding setup
setup_body-IsServed env b s v e = elim (Bool-cases (ltb (length b.password) 6)) [
  | inl h ↦ rw (e, h, setup) (served (s, fail 400 short_password) v)
  | inr h ↦ elim (Option-cases (hash_password env.crypto env.salt b.password)) [
    | inl k ↦ rw (e, h, k, setup) (served (s, fail 500 internal) v)
    | inr (hash, k) ↦
        let change = λ (c : Config.Config). inl (first_settings b hash c) in
        rw (e, h, k, setup)
          (setup_updated-IsServed env s (Config.update (env.outcome 0) change s.config) v
            (Updates.update-IsValid (env.outcome 0) s.config change v.config).0)
  ]
]

pub setup-IsServed :
    (env : Env) (body : Option SetupBody) (s : System) → IsSound s → IsServed (setup env body s)
unfolding setup
setup-IsServed env body s v = elim (Bool-cases (is_empty s.config.value.password_hash)) [
  | inr h ↦ rw (h, setup) (served (s, fail 409 setup_done) v)
  | inl h ↦ elim (Option-cases body) [
    | inl k ↦ rw (h, k, setup) (served (s, fail 400 not_json) v)
    | inr (b, k) ↦ rw k (setup_body-IsServed env b s v h)
  ]
]
