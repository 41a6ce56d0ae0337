-- ===== src/Web/Listener.antt =====
-- The listener of the console: `startLocked` and `Move`. A socket is a number, and `Os` says which are
-- open.
use kaven_dns.DnsServer.Sockets.{Os, opening, close, same_ℤ}
use kaven_dns.Prelude.{
  ◌&&◌, text_eq, if◌then◌else◌, ℤ, none, some, true, false, ℕ, Text, Bool, Option,
}

-- `listener` is a pointer, which may be to a listener that is closed.
pub record Listener : Type 0 where
  pub listener : Option ℕ
  pub address : Text
  pub port : ℤ

-- Whether the address could be bound comes with the new state.
unfoldable pub start_locked : Bool → Text → ℤ → Listener × Os → (Listener × Os) × Bool
start_locked bound address port (l, os) =
    if bound
    then ((record { listener = some os.next; address = address; port = port }, opening os), true)
    else ((l, os), false)

abbrev pub at_address : Listener → Text → ℤ → Bool
at_address l address port = elim l.listener [
  | none ↦ false
  | some _ ↦ text_eq l.address address && same_ℤ l.port port
]

-- The end of `Move`, where the new address is bound or not: else the old one is bound again.
unfoldable pub moved : Bool → Text → ℤ → (Listener × Os) × Bool → (Listener × Os) × Bool
unfolding start_locked
moved again address port (x, true) = (x, true)
moved again address port (x, false) = ((start_locked again address port x).0, false)

unfoldable pub move : Bool → Bool → Text → ℤ → Listener × Os → (Listener × Os) × Bool
unfolding start_locked moved close
move bound again address port (l, os) =
    let freed = close l.listener os in
    if at_address l address port
    then ((l, os), true)
    else moved again l.address l.port (start_locked bound address port (l, freed))
