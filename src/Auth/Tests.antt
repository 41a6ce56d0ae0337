-- ===== src/Auth/Tests.antt =====
-- The manager of sessions at concrete inputs.
use kaven_dns.Auth.Defs.{
  locked, count_failure, logout, lock_delay, failure_of, login, check, Manager,
}
use kaven_dns.Auth.Lockout.{lockout, attempts}
use kaven_dns.Auth.Password.{Crypto, hash_password, verify_password}
use kaven_dns.Auth.Sessions.{login_sound, check-logout}
use kaven_dns.Auth.Stored.{verify_password-hash_password, IsByte}
use kaven_dns.Go.{hex_encode, hex_decode, split}
use kaven_dns.Persist.{removed, absent, Outcome}
use kaven_dns.Prelude.{
  none, some, [], ◌∷◌, true, false, refl, arith, ℕ, ◌≡◌, List, Text, Bool, Option, ◌≢◌, ◌%◌, ◌⊎◌,
  length, All, Text-discrete, ◌++◌, ◌≤◌, text_eq, codes,
}
use kaven_dns.Prelude.Assoc.{lookup, delete, mem, insert}
use mathlib.Core.Path.{subst}

abbrev is_right : Text → Bool
is_right password = text_eq password (codes "right")

abbrev fine : Outcome
fine = record {
  made_directory = true;
  encoded = true;
  wrote = true;
  renamed = true;
  removal = removed;
  renamed_again = true;
}

abbrev one_session : Manager
one_session = record {
  sessions = (codes "t1", 500) ∷ [];
  fails = [];
  path = [];
  dirty = false;
  disk = record { file = none; temporary = absent };
}

program : Unit {0}
unfolding lookup insert delete login check logout attempts failure_of count_failure lock_delay mem
    Text-discrete
program = tt

abbrev home : Text
home = codes "10.0.0.2"

abbrev wrong_tries : List (Text × ℕ)
wrong_tries = (codes "a", 1) ∷ (codes "b", 2) ∷ (codes "c", 3) ∷ (codes "d", 4) ∷ []

lockout_example :
    login is_right
      (some (codes "t"))
      100
      fine
      (codes "right")
      home
      9_005
      (attempts is_right 100 fine home (wrong_tries ++ (codes "e", 5) ∷ []) one_session)
    ≡ (attempts is_right 100 fine home (wrong_tries ++ (codes "e", 5) ∷ []) one_session, locked 1)
unfolding program
lockout_example =
    lockout is_right (some (codes "t")) 100 fine home (codes "e") (codes "right") 5 9_005
      wrong_tries one_session
      ((refl, omega arith), ((refl, omega arith), ((refl, omega arith), ((refl, omega arith), tt))))
      (refl, omega arith) refl (omega arith)

login_sound_example :
    (is_right (codes "right") ≡ true)
    × ((failure_of home one_session.fails).locked_until ≤ 7)
    × (some (codes "t") ≡ some (codes "t"))
    × ((login is_right (some (codes "t")) 100 fine (codes "right") home 7 one_session).0.sessions
        ≡ insert (codes "t") 107 one_session.sessions)
unfolding program
login_sound_example =
    login_sound is_right (some (codes "t")) 100 fine (codes "right") home 7 one_session (codes "t")
      refl

check-logout_example :
    (check 100 fine (codes "t1") 400 400 (logout fine (codes "t1") one_session)).1 ≡ false
unfolding program
check-logout_example = check-logout 100 fine fine (codes "t1") 400 400 one_session (refl, tt)

-- A library whose key is the length of the password.
abbrev toy : Crypto
toy = record { scrypt = λ password salt. some (length password % 256 ∷ []); sha256 = λ text. [] }

abbrev stored_form : Text
stored_form = codes "scrypt:07ff:03"

stored_test :
    (hash_password toy (some (7 ∷ 255 ∷ [])) (codes "abc") ≡ some stored_form)
    × (verify_password toy (codes "xyz") stored_form ≡ true)
    × (verify_password toy (codes "wxyz") stored_form ≡ false)
unfolding hash_password verify_password hex_encode hex_decode split Text-discrete
stored_test = (refl, refl, refl)

abbrev AllBytes : Option (List ℕ) → Type 0
AllBytes none = Unit
AllBytes (some key) = All IsByte key

toy_bytes : (p s : Text) (key : List ℕ) → toy.scrypt p s ≡ some key → All IsByte key
toy_bytes p s key e = subst AllBytes e (omega arith, tt)

verify_password-hash_password_example :
    (verify_password toy (codes "abc") stored_form ≡ true)
    × (((verify_password toy (codes "wxyz") stored_form ≡ true)
          × (toy.scrypt (codes "wxyz") (hex_encode (7 ∷ 255 ∷ []))
              ≡ toy.scrypt (codes "abc") (hex_encode (7 ∷ 255 ∷ []))))
        ⊎ ((verify_password toy (codes "wxyz") stored_form ≡ false)
            × (toy.scrypt (codes "wxyz") (hex_encode (7 ∷ 255 ∷ []))
                ≢ toy.scrypt (codes "abc") (hex_encode (7 ∷ 255 ∷ [])))))
verify_password-hash_password_example =
    verify_password-hash_password toy (7 ∷ 255 ∷ []) (codes "abc") (codes "wxyz") stored_form
      toy_bytes stored_test.0
