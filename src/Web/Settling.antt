-- ===== src/Web/Settling.antt =====
-- What a request for new settings leads to.
use kaven_dns.Cache.Reads.{set_max_entries-IsValid}
use kaven_dns.Persist.{Outcome}
use kaven_dns.Prelude.{
  none, some, false, inl, inr, refl, ◌≡◌, List, Text, Bool, Option, codes, ◌≢◌, ap, Option-cases,
  ◌⊎◌,
}
use kaven_dns.Web.Applying.{
  web_refused, dns_refused, new_web_url, apply_listeners, update_text, password_changed, change_by,
  put_config, config_updated, config_applied, applied, Applied,
}
use kaven_dns.Web.Invariant.{IsSound, with_config, with_cache, with_history, note-IsSound}
use kaven_dns.Web.Restoring.{Ended, IsBack, Follows, apply_listeners-Ended}
use kaven_dns.Web.Settings.{Setting, apply_settings}
use kaven_dns.Web.State.{
  changed_body, web_failed, dns_failed, config_refused, System, Env, Response, note, done, fail,
}
use kaven_dns.Config
use kaven_dns.History
use kaven_dns.Config.Updates

-- The value in memory after an update that failed.
update-same :
    (o : Outcome) (change : Config.Config → Config.Config ⊎ Text) (store : Config.Store)
    (e : Config.UpdateError)
    → (Config.update o change store).1 ≡ some e
    → (Config.update o change store).0.value ≡ store.value
unfolding kaven_dns.Config.update
update-same o change store e h = elim (Updates.settle-cases o store (change store.value)) [
  | inl (message, _, done) ↦ ap (λ x. x.0.value) done
  | inr (next, _, inl (ok, _, _)) ↦ absurd (cc)
  | inr (next, _, inr (_, value, _)) ↦ value
]

-- What a request for new settings leads to, where `store` is the store after the update.
pub record IsSettled (env : Env) (s : System) (x : Config.Store × Option Config.UpdateError)
    (s' : System) (r : Response) : Type 0 where
  pub sound : IsSound s'
  pub outcome :
      ((r.status ≡ 200) × (x.1 ≡ none) × (s'.config ≡ x.0) × Follows s.config.value x.0.value s s')
      ⊎ ((r.status ≡ 400) × IsBack env s.config.value x.0 s'.config.value)

refused-IsBack :
    (env : Env) (old updated : Config.Config) (s : System) (r : System × Applied)
    → r.1 ≢ applied
    → Ended env old updated s r
    → IsBack env old s.config r.0.config.value
refused-IsBack env old updated s r h v = elim v.outcome [
  | inl (e, _, _) ↦ absurd (h e)
  | inr (_, back) ↦ back
]

applied-Follows :
    (env : Env) (old updated : Config.Config) (s s' : System)
    → Ended env old updated s (s', applied)
    → (s'.config ≡ s.config) × Follows old updated s s'
applied-Follows env old updated s s' v = elim v.outcome [
  | inl (_, same, follows) ↦ (same, follows)
  | inr (inl h, _) ↦ absurd (cc)
  | inr (inr h, _) ↦ absurd (cc)
]

config_applied-IsSettled :
    (env : Env) (changed : Bool) (s : System) (c : Config.Store) (x : System × Applied)
    → Ended env s.config.value c.value (record s { config = c }) x
    → (s' : System) × (r : Response) × (config_applied env s.config.value c.value changed x
        ≡ some (s', r))
      × IsSettled env s (c, none) s' r
unfolding config_applied note
config_applied-IsSettled env changed s c (s', dns_refused) v = (
  s',
  fail 400 dns_failed,
  refl,
  record {
    sound = v.sound;
    outcome =
        inr
          (refl, refused-IsBack env s.config.value c.value (record s { config = c }) _ (λ h. cc) v);
  },
)
config_applied-IsSettled env changed s c (s', web_refused) v = (
  s',
  fail 400 web_failed,
  refl,
  record {
    sound = v.sound;
    outcome =
        inr
          (refl, refused-IsBack env s.config.value c.value (record s { config = c }) _ (λ h. cc) v);
  },
)
config_applied-IsSettled env changed s c (s', applied) v =
    let (cache, found, valid, _, _) =
      set_max_entries-IsValid s'.cache c.value.cache_max_entries v.sound.cache in
    let (same, follows) =
      applied-Follows env s.config.value c.value (record s { config = c }) s' v in
    let history =
      History.set_limits s'.history c.value.query_history_max_entries c.value.query_retention_days
        env.now in
    (
      note env (codes "config") (codes "configuration updated") (codes "log")
          (record s' { history = history; cache = cache }),
      done (changed_body changed (new_web_url c.value s.config.value)),
      rw (found, config_applied) refl,
      record {
        sound =
            note-IsSound env (codes "config") (codes "configuration updated") (codes "log")
              (record s' { history = history; cache = cache })
              (with_cache (record s' { history = history }) cache (with_history s' history v.sound)
                valid);
        outcome = inl (refl, refl, same, record { dns = follows.dns; web = follows.web });
      },
    )

config_updated-IsSettled :
    (env : Env) (changed : Bool) (s : System) (x : Config.Store × Option Config.UpdateError)
    → IsSound s
    → Updates.IsValid x.0
    → (x.1 ≡ none) ⊎ (x.0.value ≡ s.config.value)
    → (s' : System) × (r : Response) × (config_updated env s.config.value changed s x
        ≡ some (s', r))
      × IsSettled env s x s' r
unfolding config_updated
config_updated-IsSettled env changed s (c, some e) v valid (inl h) = absurd (cc)
config_updated-IsSettled env changed s (c, some e) v valid (inr h) = (
  record s { config = c },
  fail 400 (config_refused (update_text env e)),
  refl,
  record { sound = with_config s c v valid; outcome = inr (refl, inl h) },
)
config_updated-IsSettled env changed s (c, none) v valid h =
    let s₁ = record s { config = c } in
    config_applied-IsSettled env changed s c (apply_listeners env s.config.value c.value s₁)
      (apply_listeners-Ended env s.config.value c.value v.config.clean s₁ (with_config s c v valid))

update-end :
    (o : Outcome) (change : Config.Config → Config.Config ⊎ Text) (store : Config.Store)
    → ((Config.update o change store).1 ≡ none)
      ⊎ ((Config.update o change store).0.value ≡ store.value)
update-end o change store = elim (Option-cases (Config.update o change store).1) [
  | inl h ↦ inl h
  | inr (e, h) ↦ inr (update-same o change store e h)
]

pub put_config-IsSettled :
    (env : Env) (current : Text) (settings : List Setting) (s : System)
    → IsSound s
    → (s' : System) × (r : Response) × (put_config env current settings s ≡ some (s', r))
      × IsSettled env s
          (Config.update
            (env.outcome 0)
            (change_by env current s.config.value.password_hash settings)
            s.config)
          s'
          r
unfolding put_config
put_config-IsSettled env current settings s v =
    let stored = s.config.value.password_hash in
    let change = change_by env current stored settings in
    let changed =
      password_changed (apply_settings env current stored settings (s.config.value, false)) in
    config_updated-IsSettled env changed s (Config.update (env.outcome 0) change s.config) v
      (Updates.update-IsValid (env.outcome 0) s.config change v.config).0
      (update-end (env.outcome 0) change s.config)
