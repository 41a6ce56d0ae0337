-- ===== src/Web/Moving.antt =====
-- What a move of the listener leads to.
use kaven_dns.DnsServer.Sockets.{opening, without, close, Os}
use kaven_dns.Prelude.{
  ◌∙◌, some, [], ◌∷◌, true, false, inl, inr, refl, arith, ℕ, ◌≡◌, Text, Bool, ap, Bool-cases, ◌⊎◌,
  ℤ,
}
use kaven_dns.Web.Listener.{start_locked, at_address, moved, move, Listener}

-- What a move to another address leads to: the new one; after a failure the old one; or no socket, and
-- a pointer to the listener that was closed.
pub data Moved (address : Text) (port : ℤ) (l : Listener) : (Listener × Os) × Bool → Type 0 where
  arrived :
      (n : ℕ) (os : Os)
      → os.opened ≡ n ∷ []
      → Moved address port l
          ((record { listener = some n; address = address; port = port }, os), true)
  returned :
      (n : ℕ) (os : Os)
      → os.opened ≡ n ∷ []
      → Moved address port l
          ((record { listener = some n; address = l.address; port = l.port }, os), false)
  stranded : (os : Os) → os.opened ≡ [] → Moved address port l ((l, os), false)

-- The listener's socket is the only one.
abbrev pub IsListening : Listener → Os → Type 0
IsListening l os = (n : ℕ) × (l.listener ≡ some n) × (os.opened ≡ n ∷ [])

pub freed : (l : Listener) (os : Os) → IsListening l os → (close l.listener os).opened ≡ []
unfolding close without
freed l os (n, e, f) = rw (e, close) (ground (arith, f))

pub moved-Moved :
    (bound again : Bool) (address : Text) (port : ℤ) (l : Listener) (os : Os)
    → os.opened ≡ []
    → Moved address port l (moved again l.address l.port (start_locked bound address port (l, os)))
unfolding moved start_locked
moved-Moved true again address port l os e = arrived os.next (opening os) (ap (◌∷◌ os.next) e)
moved-Moved false true address port l os e = returned os.next (opening os) (ap (◌∷◌ os.next) e)
moved-Moved false false address port l os e = stranded os e

-- A listener that listens stays where it is if it is there already. Moved elsewhere it arrives, with
-- success, or the move fails: then it listens at the old address again, or no socket is open.
pub move-Moved :
    (bound again : Bool) (address : Text) (port : ℤ) (l : Listener) (os : Os)
    → IsListening l os
    → ((at_address l address port ≡ true)
        × (move bound again address port (l, os) ≡ ((l, os), true)))
      ⊎ ((at_address l address port ≡ false)
          × Moved address port l (move bound again address port (l, os)))
unfolding move
move-Moved bound again address port l os v = elim (Bool-cases (at_address l address port)) [
  | inl h ↦ inl (h, rw (h, move) refl)
  | inr h ↦ inr (
    h,
    rw (h, move) (moved-Moved bound again address port l (close l.listener os) (freed l os v)),
  )
]

move_here :
    (bound again : Bool) (l : Listener) (os : Os)
    → at_address l l.address l.port ≡ true
    → move bound again l.address l.port (l, os) ≡ ((l, os), true)
unfolding move
move_here bound again l os h = rw (h, move) refl

-- After a move that failed on both addresses, a move back to the old address reports success and
-- opens nothing: the console is gone until it is moved elsewhere.
pub move-move_stranded :
    (address : Text) (port : ℤ) (bound again : Bool) (l : Listener) (os : Os)
    → IsListening l os
    → at_address l l.address l.port ≡ true
    → at_address l address port ≡ false
    → (move bound again l.address l.port (move false false address port (l, os)).0
        ≡ (((l, close l.listener os)), true))
      × ((close l.listener os).opened ≡ [])
unfolding move
move-move_stranded address port bound again l os v here elsewhere =
    let first : move false false address port (l, os) ≡ ((l, close l.listener os), false) =
      rw (elsewhere, move) refl in
    let empty = freed l os v in
    (
      ap (λ x. move bound again l.address l.port x.0) first
          ∙ move_here bound again l (close l.listener os) here,
      empty,
    )
