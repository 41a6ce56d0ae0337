-- ===== src/Auth/Defs.antt =====
-- The state and the methods of the manager of sessions. A time is a number of milliseconds since the
-- epoch; 0 stands for the zero time. The readings of the clock, the random bytes and the outcome of
-- writing the file are arguments.
use kaven_dns.Go.{hex_encode}
use kaven_dns.Persist.{write_json, Outcome, Disk}
use kaven_dns.Prelude.{
  none, some, [], ◌∷◌, true, false, ℕ, List, Text, Bool, Option, ◌&&◌, ◌==◌, ◌/◌, length, ◌||◌, ◌^◌,
  ◌+◌, not, ltb, leb, is_empty, ◌-◌, ◌*◌, if◌then◌else◌,
}
use kaven_dns.Prelude.Assoc.{insert, delete, lookup}

pub record Failure : Type 0 where
  pub count : ℕ
  pub strikes : ℕ
  pub locked_until : ℕ

-- `disk` is what the sessions' file holds; without a path nothing is written.
pub record Manager : Type 0 where
  pub sessions : List (Text × ℕ)
  pub fails : List (Text × Failure)
  pub path : Text
  pub dirty : Bool
  pub disk : Disk (List (Text × ℕ))

pub data LoginResult : Type 0 where
  -- seconds to wait
  locked : ℕ → LoginResult
  incorrect_password : LoginResult
  no_session : LoginResult
  logged_in : Text → LoginResult

abbrev pub max_fails : ℕ
max_fails = 5

abbrev pub no_failure : Failure
no_failure = record { count = 0; strikes = 0; locked_until = 0 }

-- `m.fails[ip]`: the zero value where there is none.
unfoldable pub failure_of : Text → List (Text × Failure) → Failure
failure_of ip fails = elim (lookup ip fails) [ none ↦ no_failure | some f ↦ f ]

abbrev pub at_most : ℕ → ℕ → ℕ
at_most limit n = if ltb limit n then limit else n

-- The delay after a number of strikes, in milliseconds: ten seconds, doubled up to six times, and ten
-- minutes at most.
unfoldable pub lock_delay : ℕ → ℕ
lock_delay strikes = at_most 600_000 (10_000 * 2 ^ at_most 6 (strikes - 1))

-- What a wrong password makes of the failures of an address.
unfoldable pub count_failure : ℕ → Failure → Failure
unfolding lock_delay
count_failure now f =
    if leb max_fails (f.count + 1)
    then record {
      count = 0;
      strikes = f.strikes + 1;
      locked_until = now + lock_delay (f.strikes + 1);
    }
    else record f { count = f.count + 1 }

-- `persistLocked`.
unfoldable pub persist : Outcome → Manager → Manager × Bool
unfolding kaven_dns.Persist.write_json
persist o m =
    if is_empty m.path
    then (record m { dirty = false }, true)
    else let (disk, ok) = write_json o m.sessions m.disk in
      (record m { disk = disk; dirty = if ok then false else m.dirty }, ok)

-- `int(f.LockedUntil.Sub(now).Seconds()+0.99)`.
abbrev pub wait_seconds : ℕ → ℕ → ℕ
wait_seconds until now = (until - now + 990) / 1000

-- `Login`. `verify` says whether a password is right; `token` is the random text, if there is one;
-- `ttl` the time that a session lives.
unfoldable pub login :
    (Text → Bool) → Option Text → ℕ → Outcome → Text → Text → ℕ → Manager → Manager × LoginResult
unfolding failure_of count_failure persist
login verify token ttl o password ip now m =
    let f = failure_of ip m.fails in
    let cleared = record m { fails = delete ip m.fails } in
    if ltb now f.locked_until
    then (m, locked (wait_seconds f.locked_until now))
    else if not (verify password)
    then (record m { fails = insert ip (count_failure now f) m.fails }, incorrect_password)
    else elim token [
      | none ↦ (cleared, no_session)
      | some t ↦ (
        (persist o (record cleared { sessions = insert t (now + ttl) m.sessions; dirty = true })).0,
        logged_in t,
      )
    ]

-- `Check` reads the clock twice.
unfoldable pub check : ℕ → Outcome → Text → ℕ → ℕ → Manager → Manager × Bool
unfolding persist
check ttl o token now now' m = elim (lookup token m.sessions) [
  | none ↦ (m, false)
  | some expires ↦
      let dropped = (persist o (record m { sessions = delete token m.sessions })).0 in
      let extended = record m { sessions = insert token (now' + ttl) m.sessions; dirty = true } in
      if ltb expires now then (dropped, false) else (extended, true)
]

unfoldable pub logout : Outcome → Text → Manager → Manager
unfolding persist
logout o token m = (persist o (record m { sessions = delete token m.sessions })).0

-- The saved sessions that are still alive. The map's own order is arbitrary.
unfoldable pub alive : ℕ → List (Text × ℕ) → List (Text × ℕ)
alive now [] = []
alive now ((token, expires) ∷ rest) =
    if ltb now expires then (token, expires) ∷ alive now rest else alive now rest

-- `New` with what `load` finds in the file, if it can read one.
unfoldable pub load : Text → Disk (List (Text × ℕ)) → Option (List (Text × ℕ)) → ℕ → Manager
unfolding alive
load path disk saved now = record {
  sessions = if is_empty path then [] else elim saved [ none ↦ [] | some s ↦ alive now s ];
  fails = [];
  path = path;
  dirty = false;
  disk = disk;
}

unfoldable pub close : Outcome → Manager → Manager
unfolding persist
close o m = if m.dirty then (persist o m).0 else m

-- The first loop of `cleanup`: the sessions that have not expired.
unfoldable pub unexpired : ℕ → List (Text × ℕ) → List (Text × ℕ)
unexpired now [] = []
unexpired now ((token, expires) ∷ rest) =
    if ltb expires now then unexpired now rest else (token, expires) ∷ unexpired now rest

-- Its second loop: an address is forgotten ten minutes after its lock has ended.
unfoldable pub recent_fails : ℕ → List (Text × Failure) → List (Text × Failure)
recent_fails now [] = []
recent_fails now ((ip, f) ∷ rest) =
    if not (f.locked_until == 0) && ltb (f.locked_until + 600_000) now
    then recent_fails now rest
    else (ip, f) ∷ recent_fails now rest

-- A round of `cleanup`.
unfoldable pub cleanup : Outcome → ℕ → Manager → Manager
unfolding unexpired recent_fails persist
cleanup o now m =
    let sessions = unexpired now m.sessions in
    let cleaned = record m { sessions = sessions; fails = recent_fails now m.fails } in
    if m.dirty || not (length sessions == length m.sessions) then (persist o cleaned).0 else cleaned

-- `randomHex` over the random bytes, if there are any.
unfoldable pub random_hex : Option (List ℕ) → Option Text
random_hex none = none
random_hex (some bytes) = some (hex_encode bytes)
