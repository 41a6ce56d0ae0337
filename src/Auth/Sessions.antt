-- ===== src/Auth/Sessions.antt =====
-- Sessions: who gets one, and how long it lasts.
use kaven_dns.Auth.Defs.{failure_of, logged_in, login, Manager, persist, logout, check}
use kaven_dns.Persist.{Outcome}
use kaven_dns.Prelude.{
  none, some, true, false, inl, inr, refl, ℕ, ◌≡◌, Text, Bool, Option, ap, ltb→le, sym, ◌≤◌, ◌≢◌,
  Option-cases, ◌∙◌, ◌+◌, ◌&&◌, ltb, not, is_empty, if◌then◌else◌, Bool-cases,
}
use kaven_dns.Prelude.Assoc.{
  lookup-insert_ne, lookup-insert_self, lookup-delete_ne, delete_absent, lookup-delete_self, delete,
  keys, insert, lookup, Distinct,
}

persist-sessions : (o : Outcome) (m : Manager) → (persist o m).0.sessions ≡ m.sessions
unfolding persist
persist-sessions o m = elim (Bool-cases (is_empty m.path)) [
  | inl h ↦ rw (h, persist) refl
  | inr h ↦ rw (h, persist) refl
]

module _ (verify : Text → Bool) (token : Option Text) (ttl : ℕ) (o : Outcome) (password ip : Text)
    (now : ℕ) (m : Manager) where
  -- A session begins only with the right password, from an address that is not locked, and with a
  -- random token. It lasts for the configured time, and every other session is left as it was.
  pub login_sound :
      (t : Text)
      → (login verify token ttl o password ip now m).1 ≡ logged_in t
      → (verify password ≡ true)
        × ((failure_of ip m.fails).locked_until ≤ now)
        × (token ≡ some t)
        × ((login verify token ttl o password ip now m).0.sessions
            ≡ insert t (now + ttl) m.sessions)
  unfolding login
  login_sound t h =
      let f = failure_of ip m.fails in
      elim (Bool-cases (ltb now f.locked_until)) [
        | inl early ↦ absurd (cc (rw (early, login) at h))
        | inr late ↦ elim (Bool-cases (verify password)) [
          | inr wrong ↦ absurd (cc (rw (late, wrong, login) at h))
          | inl right ↦ elim (Option-cases token) [
            | inl no_token ↦ absurd (cc (rw (late, right, no_token, login) at h))
            | inr (t', it) ↦
                let same : t' ≡ t = cc (rw (late, right, it, login) at h) in
                (
                  right,
                  ltb→le _ _ late,
                  it ∙ ap some same,
                  rw (late, right, it, login, same)
                      (persist-sessions o (record m {
                        fails = delete ip m.fails;
                        sessions = insert t (now + ttl) m.sessions;
                        dirty = true;
                      })),
                )
          ]
        ]
      ]

-- What `check` answers for a token.
check-lookup :
    (ttl : ℕ) (o : Outcome) (token : Text) (now now' : ℕ) (m : Manager)
    → (check ttl o token now now' m).1
      ≡ elim (lookup token m.sessions) [ none ↦ false | some expires ↦ not (ltb expires now) ]
unfolding check
check-lookup ttl o token now now' m = elim (Option-cases (lookup token m.sessions)) [
  | inl h ↦ rw (h, check) refl
  | inr (e, h) ↦ elim (Bool-cases (ltb e now)) [
    | inl k ↦ rw (h, k, check) refl
    | inr k ↦ rw (h, k, check) refl
  ]
]

-- The sessions after a check: an expired one is dropped, and a live one is extended.
check-sessions :
    (ttl : ℕ) (o : Outcome) (token : Text) (now now' : ℕ) (m : Manager)
    → (check ttl o token now now' m).0.sessions ≡ (
        if (check ttl o token now now' m).1
        then insert token (now' + ttl) m.sessions
        else delete token m.sessions)
unfolding check
check-sessions ttl o token now now' m = elim (Option-cases (lookup token m.sessions)) [
  | inl h ↦ rw (h, check) (sym (delete_absent token m.sessions h))
  | inr (e, h) ↦ elim (Bool-cases (ltb e now)) [
    | inl k ↦
        rw (h, k, check) (persist-sessions o (record m { sessions = delete token m.sessions }))
    | inr k ↦ rw (h, k, check) refl
  ]
]

module _ (ttl ttl' : ℕ) (o o' : Outcome) (token : Text) (t₁ t₂ t₃ t₄ : ℕ) (m : Manager) where
  -- After a check that succeeds, the next check of the token succeeds exactly until the session time
  -- has passed since. After a check that fails it fails.
  pub check-check :
      Distinct (keys m.sessions)
      → (check ttl' o' token t₃ t₄ (check ttl o token t₁ t₂ m).0).1
        ≡ ((check ttl o token t₁ t₂ m).1 && not (ltb (t₂ + ttl) t₃))
  check-check d =
      let m' = (check ttl o token t₁ t₂ m).0 in
      let after = check-sessions ttl o token t₁ t₂ m in
      let next = check-lookup ttl' o' token t₃ t₄ m' in
      elim (Bool-cases (check ttl o token t₁ t₂ m).1) [
        | inl h ↦
            let there : m'.sessions ≡ insert token (t₂ + ttl) m.sessions = after ∙ rw h refl in
            next ∙ rw (there, lookup-insert_self token (t₂ + ttl) m.sessions, h) refl
        | inr h ↦
            let there : m'.sessions ≡ delete token m.sessions = after ∙ rw h refl in
            next ∙ rw (there, h, lookup-delete_self token m.sessions d) refl
      ]

  -- A check of one token does not change what a check of another answers.
  pub check_other :
      (other : Text)
      → other ≢ token
      → (check ttl' o' other t₃ t₄ (check ttl o token t₁ t₂ m).0).1
        ≡ (check ttl' o' other t₃ t₄ m).1
  check_other other differs =
      let m' = (check ttl o token t₁ t₂ m).0 in
      let after = check-sessions ttl o token t₁ t₂ m in
      let next = check-lookup ttl' o' other t₃ t₄ m' in
      let before = sym (check-lookup ttl' o' other t₃ t₄ m) in
      elim (Bool-cases (check ttl o token t₁ t₂ m).1) [
        | inl h ↦
            let there : m'.sessions ≡ insert token (t₂ + ttl) m.sessions = after ∙ rw h refl in
            next
            ∙ rw (there, lookup-insert_ne token other (t₂ + ttl) m.sessions differs) refl
            ∙ before
        | inr h ↦
            let there : m'.sessions ≡ delete token m.sessions = after ∙ rw h refl in
            next ∙ rw (there, lookup-delete_ne token other m.sessions differs) refl ∙ before
      ]

-- After a logout the token is refused.
pub check-logout :
    (ttl : ℕ) (o o' : Outcome) (token : Text) (now now' : ℕ) (m : Manager)
    → Distinct (keys m.sessions)
    → (check ttl o' token now now' (logout o token m)).1 ≡ false
unfolding logout
check-logout ttl o o' token now now' m d =
    check-lookup ttl o' token now now' (logout o token m)
    ∙ rw
        (
          persist-sessions o (record m { sessions = delete token m.sessions }),
          lookup-delete_self token m.sessions d,
        )
        refl
