-- ===== src/DnsServer/Sockets.antt =====
-- The listeners: `Start`, `Restart` and `Shutdown` over the sockets that the process has open. The
-- server loops of the DNS library, which run on the sockets, are left out.
use kaven_dns.Prelude.{
  none, some, [], ◌∷◌, true, false, pos, ℕ, List, Text, Bool, Option, text_eq, ltb_ℤ, ◌==◌, ◌&&◌,
  not, ◌+◌, ℤ, if◌then◌else◌,
}

-- `Error` holds no more than whether there is one.
pub record Status : Type 0 where
  pub port : ℤ
  pub address : Text
  pub listening : Bool
  pub has_error : Bool

-- A pair of sockets, by their numbers.
pub record Server : Type 0 where
  pub udp : Option ℕ
  pub tcp : Option ℕ
  pub status : Status

-- The sockets that are open, the newest first, and the number of the next one.
pub record Os : Type 0 where
  pub opened : List ℕ
  pub next : ℕ

-- What the operating system answers to the three calls of `startPair`.
pub record Binding : Type 0 where
  pub resolved : Bool
  pub udp_bound : Bool
  pub tcp_bound : Bool

unfoldable pub new : Server
new = record {
  udp = none;
  tcp = none;
  status = record { port = pos 0; address = []; listening = false; has_error = false };
}

-- A socket that is bound.
abbrev pub opening : Os → Os
opening os = record { opened = os.next ∷ os.opened; next = os.next + 1 }

unfoldable pub without : ℕ → List ℕ → List ℕ
without n [] = []
without n (m ∷ ms) = if m == n then ms else m ∷ without n ms

unfoldable pub close : Option ℕ → Os → Os
unfolding without
close none os = os
close (some n) os = record os { opened = without n os.opened }

-- `startPair`: if the second socket cannot be bound, the first is closed. A socket does not say its
-- address; the status of the server does.
unfoldable pub start_pair : Binding → Os → Os × Option (ℕ × ℕ)
unfolding close
start_pair b os =
    let with_udp = opening os in
    if not b.resolved
    then (os, none)
    else if not b.udp_bound
    then (os, none)
    else if not b.tcp_bound
    then (close (some os.next) with_udp, none)
    else (opening with_udp, some (os.next, with_udp.next))

-- `shutdownPair`, where a shutdown closes the socket, as documented.
unfoldable pub shutdown_pair : Option ℕ → Option ℕ → Os → Os
unfolding close
shutdown_pair udp tcp os = close tcp (close udp os)

abbrev pub up : Text → ℤ → Status
up address port = record { port = port; address = address; listening = true; has_error = false }

abbrev pub failed : Text → ℤ → Status
failed address port = record { port = port; address = address; listening = false; has_error = true }

-- The state after a pair is bound, or is not.
unfoldable pub started : Text → ℤ → Server → Os × Option (ℕ × ℕ) → (Server × Os) × Bool
started address port s (os, none) = ((record s { status = failed address port }, os), false)
started address port s (os, some (u, t)) =
    ((record { udp = some u; tcp = some t; status = up address port }, os), true)

-- Whether the call succeeded comes with the new state.
unfoldable pub start : Binding → Text → ℤ → Server × Os → (Server × Os) × Bool
unfolding start_pair started
start b address port (s, os) = started address port s (start_pair b os)

unfoldable pub shutdown : Server × Os → Server × Os
unfolding shutdown_pair
shutdown (s, os) = (
  record s { udp = none; tcp = none; status = record (s.status) { listening = false } },
  shutdown_pair s.udp s.tcp os,
)

abbrev pub same_ℤ : ℤ → ℤ → Bool
same_ℤ m n = not (ltb_ℤ m n) && not (ltb_ℤ n m)

-- `old.Listening && old.Port == port && old.Address == address`.
abbrev pub serves : Status → Text → ℤ → Bool
serves st address port = st.listening && same_ℤ st.port port && text_eq st.address address

-- The end of `Restart`, where the new address is not bound: the old one is bound again, or not.
unfoldable pub rolled_back : Text → ℤ → Status → Os × Option (ℕ × ℕ) → Server × Os
rolled_back address port old (os, none) =
    (record { udp = none; tcp = none; status = failed address port }, os)
rolled_back address port old (os, some (u, t)) =
    (record { udp = some u; tcp = some t; status = old }, os)

unfoldable pub restarted : Binding → Text → ℤ → Status → Os × Option (ℕ × ℕ) → (Server × Os) × Bool
unfolding start_pair rolled_back
restarted again address port old (os, none) =
    (rolled_back address port old (start_pair again os), false)
restarted again address port old (os, some (u, t)) =
    ((record { udp = some u; tcp = some t; status = up address port }, os), true)

-- `b` is what the operating system answers for the new address, and `again` for the old one.
unfoldable pub restart : Binding → Binding → Text → ℤ → Server × Os → (Server × Os) × Bool
unfolding start_pair shutdown_pair restarted
restart b again address port (s, os) =
    if serves s.status address port
    then ((s, os), true)
    else restarted again address port s.status (start_pair b (shutdown_pair s.udp s.tcp os))
