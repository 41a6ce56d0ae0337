-- ===== src/DnsServer/Restart.antt =====
-- The sockets over any sequence of calls, and what a restart leads to.
use kaven_dns.DnsServer.Sockets.{
  Status, failed, up, serves, started, rolled_back, without, restarted, new, start, shutdown,
  restart, close, start_pair, shutdown_pair, Os, Server, Binding,
}
use kaven_dns.Prelude.{
  none, some, [], ◌∷◌, true, false, inl, inr, refl, arith, ℕ, ◌≡◌, List, Text, Bool, Option, ℤ,
  Bool-cases, ◌⊎◌, ◌≢◌,
}

-- The sockets that the server holds.
abbrev pub held_by : Option ℕ → Option ℕ → List ℕ
held_by none none = []
held_by (some u) none = u ∷ []
held_by none (some t) = t ∷ []
held_by (some u) (some t) = t ∷ u ∷ []

abbrev pub held : Server → List ℕ
held s = held_by s.udp s.tcp

abbrev pub is_up : Server → Bool
is_up s = elim s.udp [ none ↦ false | some _ ↦ true ]

abbrev pub HasBoth : Option ℕ → Option ℕ → Type 0
HasBoth none none = Unit
HasBoth (some u) (some t) = u ≢ t
HasBoth none (some t) = ⊥
HasBoth (some u) none = ⊥

-- The process has open what the server holds, no more: both sockets or neither. A server that
-- says it listens holds them.
pub record IsConsistent (s : Server) (os : Os) : Type 0 where
  pub all_held : os.opened ≡ held s
  pub both : HasBoth s.udp s.tcp
  pub listens : (s.status.listening ≡ false) ⊎ (is_up s ≡ true)

close_both :
    (udp tcp : Option ℕ) (os : Os)
    → os.opened ≡ held_by udp tcp
    → HasBoth udp tcp
    → (shutdown_pair udp tcp os).opened ≡ []
unfolding shutdown_pair close without
close_both none none os e b = e
close_both none (some t) os e b = absurd b
close_both (some u) none os e b = absurd b
close_both (some u) (some t) os e b = ground arith

-- Both sockets are open, or none is.
abbrev pub Bound : Os × Option (ℕ × ℕ) → Type 0
Bound (os, none) = os.opened ≡ []
Bound (os, some (u, t)) = (os.opened ≡ t ∷ u ∷ []) × (u ≢ t)

pub start_pair-Bound : (b : Binding) (os : Os) → os.opened ≡ [] → Bound (start_pair b os)
unfolding start_pair close without
start_pair-Bound b os e = elim (Bool-cases b.resolved) [
  | inr h ↦ rw h e
  | inl h ↦ elim (Bool-cases b.udp_bound) [
    | inr k ↦ rw (h, k) e
    | inl k ↦ elim (Bool-cases b.tcp_bound) [
      | inr l ↦ rw (h, k, l) (ground arith)
      | inl l ↦ rw (h, k, l) (ground arith, λ same. absurd (omega (arith, same)))
    ]
  ]
]

-- The sockets and the status after a restart for another address: a pair, with the new address as the
-- status; after a failure a pair, with the status of before; or, when both fail, no socket and an error.
pub data Restarted (address : Text) (port : ℤ) (old : Status) : (Server × Os) × Bool → Type 0 where
  moved :
      (u t : ℕ) (os : Os)
      → os.opened ≡ t ∷ u ∷ []
      → u ≢ t
      → Restarted address port old
          ((record { udp = some u; tcp = some t; status = up address port }, os), true)
  kept :
      (u t : ℕ) (os : Os)
      → os.opened ≡ t ∷ u ∷ []
      → u ≢ t
      → Restarted address port old
          ((record { udp = some u; tcp = some t; status = old }, os), false)
  lost :
      (os : Os)
      → os.opened ≡ []
      → Restarted address port old
          ((record { udp = none; tcp = none; status = failed address port }, os), false)

rolled_back-Restarted :
    (address : Text) (port : ℤ) (old : Status) (r : Os × Option (ℕ × ℕ))
    → Bound r
    → Restarted address port old (rolled_back address port old r, false)
unfolding rolled_back
rolled_back-Restarted address port old (os, none) e = lost os e
rolled_back-Restarted address port old (os, some (u, t)) (e, d) = kept u t os e d

restarted-Restarted :
    (again : Binding) (address : Text) (port : ℤ) (old : Status) (r : Os × Option (ℕ × ℕ))
    → Bound r
    → Restarted address port old (restarted again address port old r)
unfolding restarted
restarted-Restarted again address port old (os, none) e =
    rolled_back-Restarted address port old (start_pair again os) (start_pair-Bound again os e)
restarted-Restarted again address port old (os, some (u, t)) (e, d) = moved u t os e d

-- The sockets after a `Restart`: those of before where the server listens already, and else a new pair,
-- or none and an error.
pub restart-Restarted :
    (b again : Binding) (address : Text) (port : ℤ) (s : Server) (os : Os)
    → IsConsistent s os
    → ((serves s.status address port ≡ true)
        × (restart b again address port (s, os) ≡ ((s, os), true)))
      ⊎ ((serves s.status address port ≡ false)
          × Restarted address port s.status (restart b again address port (s, os)))
unfolding restart
restart-Restarted b again address port s os v =
    let closed = shutdown_pair s.udp s.tcp os in
    let bound = start_pair-Bound b closed (close_both s.udp s.tcp os v.all_held v.both) in
    elim (Bool-cases (serves s.status address port)) [
      | inl h ↦ inl (h, rw h refl)
      | inr h ↦
          inr
            (h, rw h (restarted-Restarted again address port s.status (start_pair b closed) bound))
    ]

Restarted-IsConsistent :
    (address : Text) (port : ℤ) (old : Status) (r : (Server × Os) × Bool)
    → Restarted address port old r
    → IsConsistent r.0.0 r.0.1
Restarted-IsConsistent address port old r (moved u t os e d) = record {
  all_held = e;
  both = d;
  listens = inr refl;
}
Restarted-IsConsistent address port old r (kept u t os e d) = record {
  all_held = e;
  both = d;
  listens = inr refl;
}
Restarted-IsConsistent address port old r (lost os e) = record {
  all_held = e;
  both = tt;
  listens = inl refl;
}

pub restart-IsConsistent :
    (b again : Binding) (address : Text) (port : ℤ) (s : Server) (os : Os)
    → IsConsistent s os
    → IsConsistent
        (restart b again address port (s, os)).0.0
        (restart b again address port (s, os)).0.1
restart-IsConsistent b again address port s os v =
    elim (restart-Restarted b again address port s os v) [
      | inl (_, e) ↦ rw e v
      | inr (_, r) ↦
          Restarted-IsConsistent address port s.status (restart b again address port (s, os)) r
    ]

pub started-IsConsistent :
    (address : Text) (port : ℤ) (r : Os × Option (ℕ × ℕ))
    → Bound r
    → IsConsistent (started address port new r).0.0 (started address port new r).0.1
unfolding started new
started-IsConsistent address port (os, none) e = record {
  all_held = e;
  both = tt;
  listens = inl refl;
}
started-IsConsistent address port (os, some (u, t)) (e, d) = record {
  all_held = e;
  both = d;
  listens = inr refl;
}

pub shutdown-IsConsistent :
    (s : Server) (os : Os)
    → IsConsistent s os
    → IsConsistent (shutdown (s, os)).0 (shutdown (s, os)).1
unfolding shutdown
shutdown-IsConsistent s os v = record {
  all_held = close_both s.udp s.tcp os v.all_held v.both;
  both = tt;
  listens = inl refl;
}

-- The calls that the program makes after `Start`.
pub data Call : Type 0 where
  restart_call : Binding → Binding → Text → ℤ → Call
  shutdown_call : Call

unfoldable pub apply : Call → Server × Os → Server × Os
unfolding restart shutdown
apply (restart_call b again address port) x = (restart b again address port x).0
apply shutdown_call x = shutdown x

unfoldable pub run : List Call → Server × Os → Server × Os
unfolding apply
run [] x = x
run (c ∷ cs) x = run cs (apply c x)

apply-IsConsistent :
    (c : Call) (s : Server) (os : Os)
    → IsConsistent s os
    → IsConsistent (apply c (s, os)).0 (apply c (s, os)).1
unfolding apply
apply-IsConsistent (restart_call b again address port) s os v =
    restart-IsConsistent b again address port s os v
apply-IsConsistent shutdown_call s os v = shutdown-IsConsistent s os v

run-IsConsistent_from :
    (cs : List Call) (s : Server) (os : Os)
    → IsConsistent s os
    → IsConsistent (run cs (s, os)).0 (run cs (s, os)).1
unfolding run
run-IsConsistent_from [] s os v = v
run-IsConsistent_from (c ∷ cs) s os v =
    run-IsConsistent_from cs (apply c (s, os)).0 (apply c (s, os)).1 (apply-IsConsistent c s os v)

-- After `Start` on a new server, whatever restarts and shutdowns follow and whichever of them the
-- operating system refuses, no socket leaks: exactly the two that the server holds are open, or none
-- is; and a server that says that it listens holds them.
pub run-IsConsistent :
    (b : Binding) (address : Text) (port : ℤ) (os : Os) (cs : List Call)
    → os.opened ≡ []
    → IsConsistent
        (run cs (start b address port (new, os)).0).0
        (run cs (start b address port (new, os)).0).1
unfolding start
run-IsConsistent b address port os cs e =
    let first = started address port new (start_pair b os) in
    run-IsConsistent_from cs first.0.0 first.0.1
      (started-IsConsistent address port (start_pair b os) (start_pair-Bound b os e))
