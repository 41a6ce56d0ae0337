-- ===== src/Auth/Lockout.antt =====
-- The lockout: five wrong passwords lock an address for a while, which grows with each time.
use kaven_dns.Auth.Defs.{
  wait_seconds, locked, at_most, max_fails, count_failure, Manager, Failure, login, lock_delay,
  failure_of,
}
use kaven_dns.Persist.{Outcome}
use kaven_dns.Prelude.{
  none, [], ◌∷◌, zero, suc, true, false, refl, arith, ℕ, ◌≡◌, List, Text, Bool, Option, lt→ltb, ◌-◌,
  ap, ◌∙◌, ◌++◌, length, leb, ◌<◌, ltb, All, ◌^◌, ◌+◌, ◌≤◌,
}
use kaven_dns.Prelude.Assoc.{lookup-insert_self, insert}

doubled : (n : ℕ) → 1 ≤ 2 ^ n
doubled zero = omega arith
doubled (suc n) = omega (arith, doubled n)

-- A lock lasts between ten seconds and ten minutes.
pub lock_delay_bounds : (n : ℕ) → (10_000 ≤ lock_delay n) × (lock_delay n ≤ 600_000)
unfolding lock_delay
lock_delay_bounds n = (ground (arith, doubled (at_most 6 (n - 1))), ground arith)

login-wrong :
    (verify : Text → Bool) (token : Option Text) (ttl : ℕ) (o : Outcome) (password ip : Text)
    (now : ℕ) (m : Manager)
    → (failure_of ip m.fails).locked_until ≤ now
    → verify password ≡ false
    → (login verify token ttl o password ip now m).0
      ≡ record m { fails = insert ip (count_failure now (failure_of ip m.fails)) m.fails }
unfolding login
login-wrong verify token ttl o password ip now m h wrong =
    let late : ltb now (failure_of ip m.fails).locked_until ≡ false = ground arith in
    rw (late, wrong, login) refl

failure_of-insert :
    (ip : Text) (f : Failure) (fails : List (Text × Failure))
    → failure_of ip (insert ip f fails) ≡ f
unfolding failure_of
failure_of-insert ip f fails = rw (lookup-insert_self ip f fails, failure_of) refl

-- Wrong passwords from one address, one after another.
unfoldable pub attempts : (Text → Bool) → ℕ → Outcome → Text → List (Text × ℕ) → Manager → Manager
attempts verify ttl o ip [] m = m
attempts verify ttl o ip ((password, now) ∷ rest) m =
    attempts verify ttl o ip rest (login verify none ttl o password ip now m).0

abbrev pub IsWrong : (Text → Bool) → ℕ → Text × ℕ → Type 0
IsWrong verify unlocked (password, now) = (verify password ≡ false) × (unlocked ≤ now)

count_failure-few :
    (now : ℕ) (f : Failure) → f.count < 4 → count_failure now f ≡ record f { count = f.count + 1 }
unfolding count_failure
count_failure-few now f h =
    let few : leb max_fails (f.count + 1) ≡ false = ground arith in rw few refl

one_wrong :
    (verify : Text → Bool) (ttl : ℕ) (o : Outcome) (password ip : Text) (now : ℕ) (m : Manager)
    (f : Failure)
    → failure_of ip m.fails ≡ f
    → IsWrong verify f.locked_until (password, now)
    → failure_of ip (login verify none ttl o password ip now m).0.fails ≡ count_failure now f
one_wrong verify ttl o password ip now m f same (wrong, late) =
    rw (login-wrong verify none ttl o password ip now m (rw same late) wrong) (
      failure_of-insert ip (count_failure now (failure_of ip m.fails)) m.fails
      ∙ ap (count_failure now) same)

-- Fewer than five wrong passwords are only counted.
attempts-counted :
    (verify : Text → Bool) (ttl : ℕ) (o : Outcome) (ip : Text) (tries : List (Text × ℕ))
    (m : Manager) (f : Failure)
    → failure_of ip m.fails ≡ f
    → All (IsWrong verify f.locked_until) tries
    → f.count + length tries ≤ 4
    → failure_of ip (attempts verify ttl o ip tries m).fails
      ≡ record f { count = f.count + length tries }
unfolding attempts
attempts-counted verify ttl o ip [] m f same all few =
    same ∙ ap (λ n. record f { count = n }) (omega arith)
attempts-counted verify ttl o ip ((password, now) ∷ rest) m f same (wrong, all) few =
    let m' = (login verify none ttl o password ip now m).0 in
    let f' = record f { count = f.count + 1 } in
    let same' : failure_of ip m'.fails ≡ f' =
      one_wrong verify ttl o password ip now m f same wrong
      ∙ count_failure-few now f (omega arith) in
    attempts-counted verify ttl o ip rest m' f' same' all (omega arith)
    ∙ ap (λ n. record f { count = n }) (omega arith)

login-locked :
    (verify : Text → Bool) (token : Option Text) (ttl : ℕ) (o : Outcome) (password ip : Text)
    (now : ℕ) (m : Manager) (f : Failure)
    → failure_of ip m.fails ≡ f
    → now < f.locked_until
    → login verify token ttl o password ip now m ≡ (m, locked (wait_seconds f.locked_until now))
unfolding login
login-locked verify token ttl o password ip now m f same early =
    let locked_now : ltb now (failure_of ip m.fails).locked_until ≡ true =
      rw same (lt→ltb _ _ early) in
    rw (locked_now, login, same) refl

attempts-append :
    (verify : Text → Bool) (ttl : ℕ) (o : Outcome) (ip : Text) (first rest : List (Text × ℕ))
    (m : Manager)
    → attempts verify ttl o ip (first ++ rest) m
      ≡ attempts verify ttl o ip rest (attempts verify ttl o ip first m)
unfolding attempts
attempts-append verify ttl o ip [] rest m = refl
attempts-append verify ttl o ip ((password, now) ∷ first) rest m =
    attempts-append verify ttl o ip first rest (login verify none ttl o password ip now m).0

count_failure-lock :
    (now n : ℕ) (f : Failure)
    → f.count + n ≡ 4
    → count_failure now (record f { count = f.count + n }) ≡ record {
      count = 0;
      strikes = f.strikes + 1;
      locked_until = now + lock_delay (f.strikes + 1);
    }
unfolding count_failure
count_failure-lock now n f h = rw h refl

-- The fifth wrong password from an address locks it: until the delay for its number of strikes has
-- passed, every login from there is refused, and changes nothing, also one with the right password.
-- The wrong passwords come after the end of an earlier lock, if there was one.
pub lockout :
    (verify : Text → Bool) (token : Option Text) (ttl : ℕ) (o : Outcome) (ip last password : Text)
    (now later : ℕ) (tries : List (Text × ℕ)) (m : Manager)
    → All (IsWrong verify (failure_of ip m.fails).locked_until) tries
    → IsWrong verify (failure_of ip m.fails).locked_until (last, now)
    → (failure_of ip m.fails).count + length tries ≡ 4
    → later < now + lock_delay ((failure_of ip m.fails).strikes + 1)
    → login verify token ttl o password ip later
        (attempts verify ttl o ip (tries ++ (last, now) ∷ []) m)
      ≡ (
        attempts verify ttl o ip (tries ++ (last, now) ∷ []) m,
        locked (wait_seconds (now + lock_delay ((failure_of ip m.fails).strikes + 1)) later),
      )
unfolding attempts
lockout verify token ttl o ip last password now later tries m all wrong four early =
    let f = failure_of ip m.fails in
    let m₁ = attempts verify ttl o ip tries m in
    let m₂ = (login verify none ttl o last ip now m₁).0 in
    let f₁ = record f { count = f.count + length tries } in
    let f₂ : Failure = record {
      count = 0;
      strikes = f.strikes + 1;
      locked_until = now + lock_delay (f.strikes + 1);
    } in
    let counted = attempts-counted verify ttl o ip tries m f refl all (omega arith) in
    let strike : failure_of ip m₂.fails ≡ f₂ =
      one_wrong verify ttl o last ip now m₁ f₁ counted wrong
      ∙ count_failure-lock now (length tries) f four in
    rw (attempts-append verify ttl o ip tries ((last, now) ∷ []) m)
      (login-locked verify token ttl o password ip later m₂ f₂ strike early)
