-- ===== src/Web/Restoring.antt =====
-- What a change of the settings leads to: the program follows it, or goes back.
use kaven_dns.Config.Sanitize.{sanitize_fixed, IsClean}
use kaven_dns.DnsServer.Restart.{IsConsistent, restart-IsConsistent}
use kaven_dns.DnsServer.Sockets.{restart, serves, Server, Os}
use kaven_dns.Prelude.{some, true, false, inl, inr, refl, ◌≡◌, Bool, ◌∙◌, Bool-cases, ◌⊎◌}
use kaven_dns.Web.Applying.{
  apply_web, apply_listeners, after_web, after_dns, web_refused, dns_refused, web_changed, applied,
  undo_dns, put_back, dns_changed, Applied,
}
use kaven_dns.Web.Invariant.{
  IsAtMostOne, IsSound, with_config, with_dns, with_web, move-IsAtMostOne, restart-serves,
}
use kaven_dns.Web.Listener.{move, at_address, Listener}
use kaven_dns.Web.State.{System, Env}
use mathlib.Core.Path.{subst}
use kaven_dns.Config
use kaven_dns.Config.Updates

-- The listeners serve the addresses of the settings, where these have changed.
pub record Follows (old updated : Config.Config) (before after : System) : Type 0 where
  pub dns :
      ((dns_changed updated old ≡ false) × (after.dns ≡ before.dns))
      ⊎ (serves after.dns.0.status updated.bind_address updated.dns_port ≡ true)
  pub web :
      ((web_changed updated old ≡ false) × (after.web ≡ before.web))
      ⊎ (at_address after.web.0 updated.web_bind_address updated.web_port ≡ true)

-- The settings are the old ones, or they could not be written back.
abbrev pub IsBack : Env → Config.Config → Config.Store → Config.Config → Type 0
IsBack env old store value =
    (value ≡ old)
    ⊎ ((value ≡ store.value)
        × ((Config.replace (env.outcome 1) old store).1 ≡ some Config.write_failed))

-- The end of a change from a state, after the settings were replaced.
pub record Ended (env : Env) (old updated : Config.Config) (s : System) (r : System × Applied)
    : Type 0 where
  pub sound : IsSound r.0
  pub outcome :
      ((r.1 ≡ applied) × (r.0.config ≡ s.config) × Follows old updated s r.0)
      ⊎ (((r.1 ≡ dns_refused) ⊎ (r.1 ≡ web_refused)) × IsBack env old s.config r.0.config.value)

put_back_lem :
    (env : Env) (old : Config.Config) (s : System)
    → IsSound s
    → IsClean old
    → IsSound (put_back (env.outcome 1) old s)
      × IsBack env old s.config (put_back (env.outcome 1) old s).config.value
unfolding put_back
put_back_lem env old s v clean =
    let o = env.outcome 1 in
    let c = (Config.replace o old s.config).0 in
    (
      with_config s c v (Updates.replace-IsValid o s.config old v.config),
      elim (Updates.replace_lem o s.config old) [
        | inl (_, value, _) ↦ inl (value ∙ sanitize_fixed old clean)
        | inr (failed, value, _) ↦ inr (value, failed)
      ],
    )

undo_dns-IsSound :
    (env : Env) (b : Bool) (old : Config.Config) (s : System)
    → IsSound s
    → IsSound (undo_dns env b old s) × ((undo_dns env b old s).config ≡ s.config)
unfolding undo_dns
undo_dns-IsSound env false old s v = (v, refl)
undo_dns-IsSound env true old s v = (
  with_dns s (restart env.dns_undo env.dns_undo_old old.bind_address old.dns_port s.dns).0 v (
      restart-IsConsistent env.dns_undo env.dns_undo_old old.bind_address old.dns_port s.dns.0
        s.dns.1 v.dns),
  refl,
)

module _ (env : Env) (old updated : Config.Config) (clean : IsClean old) where
  after_web-Ended :
      (b : Bool) (before s : System) (x : (Listener × Os) × Bool)
      → IsSound s
      → s.config ≡ before.config
      → ((dns_changed updated old ≡ false) × (s.dns ≡ before.dns))
        ⊎ (serves s.dns.0.status updated.bind_address updated.dns_port ≡ true)
      → IsAtMostOne x.0.0 x.0.1
      → (x.1 ≡ false) ⊎ (at_address x.0.0 updated.web_bind_address updated.web_port ≡ true)
      → Ended env old updated before (after_web env b old s x)
  unfolding after_web
  after_web-Ended b before s (web, true) v same dns one (inl h) = absurd (cc)
  after_web-Ended b before s (web, true) v same dns one (inr h) = record {
    sound = with_web s web v one;
    outcome = inl (refl, same, record { dns = dns; web = inr h });
  }
  after_web-Ended b before s (web, false) v same dns one h =
      let there = undo_dns env b old (record s { web = web }) in
      let (undone, kept) =
        undo_dns-IsSound env b old (record s { web = web }) (with_web s web v one) in
      let (sound, back) = put_back_lem env old there undone clean in
      let value = (put_back (env.outcome 1) old there).config.value in
      record {
        sound = sound;
        outcome = inr (inr refl, subst (λ c. IsBack env old c value) (kept ∙ same) back);
      }

  apply_web-Ended :
      (b : Bool) (before s : System)
      → IsSound s
      → s.config ≡ before.config
      → s.web ≡ before.web
      → ((dns_changed updated old ≡ false) × (s.dns ≡ before.dns))
        ⊎ (serves s.dns.0.status updated.bind_address updated.dns_port ≡ true)
      → Ended env old updated before (apply_web env b old updated s)
  unfolding apply_web
  apply_web-Ended b before s v same same_web dns =
      let address = updated.web_bind_address in
      let (one, there) =
        move-IsAtMostOne env.web_new env.web_old address updated.web_port s.web.0 s.web.1 v.web in
      elim (Bool-cases (web_changed updated old)) [
        | inl h ↦
            rw (h, apply_web)
              (after_web-Ended b before s
                (move env.web_new env.web_old address updated.web_port s.web) v same dns one there)
        | inr h ↦
            rw (h, apply_web)
              (record {
                sound = v;
                outcome = inl (refl, same, record { dns = dns; web = inl (h, same_web) });
              })
      ]

  after_dns-Ended :
      (s : System) (x : (Server × Os) × Bool)
      → IsSound s
      → IsConsistent x.0.0 x.0.1
      → (x.1 ≡ false) ⊎ (serves x.0.0.status updated.bind_address updated.dns_port ≡ true)
      → Ended env old updated s (after_dns env old updated s x)
  unfolding after_dns
  after_dns-Ended s (dns, true) v consistent (inl h) = absurd (cc)
  after_dns-Ended s (dns, true) v consistent (inr h) =
      apply_web-Ended true s (record s { dns = dns }) (with_dns s dns v consistent) refl refl
        (inr h)
  after_dns-Ended s (dns, false) v consistent h =
      let (sound, back) =
        put_back_lem env old (record s { dns = dns }) (with_dns s dns v consistent) clean in
      record { sound = sound; outcome = inr (inl refl, back) }

  pub apply_listeners-Ended :
      (s : System) → IsSound s → Ended env old updated s (apply_listeners env old updated s)
  unfolding apply_listeners
  apply_listeners-Ended s v =
      let address = updated.bind_address in
      let port = updated.dns_port in
      elim (Bool-cases (dns_changed updated old)) [
        | inl h ↦
            rw (h, apply_listeners)
              (after_dns-Ended s (restart env.dns_new env.dns_old address port s.dns) v
                (restart-IsConsistent env.dns_new env.dns_old address port s.dns.0 s.dns.1 v.dns)
                (restart-serves env.dns_new env.dns_old address port s.dns.0 s.dns.1 v.dns))
        | inr h ↦ rw (h, apply_listeners) (apply_web-Ended false s s v refl refl (inl (h, refl)))
      ]
