-- ===== src/Cache/Aging.antt =====
-- What is left of an answer that is read later: the records of a hit and their times to live.
use kaven_dns.Cache.Defs.{Result, Entry, aged, cap_ttl, remaining_seconds, Cache, get, set}
use kaven_dns.Cache.Invariant.{IsValid}
use kaven_dns.Cache.Reads.{get-set-aged}
use kaven_dns.Dns.{Rr}
use kaven_dns.Prelude.{
  none, some, [], ◌∷◌, inl, inr, refl, pos, arith, ℕ, ◌≡◌, List, Text, ◌∙◌, ◌⊎◌, ◌-◌, ltb→le, ◌^◌,
  max, ltb→lt, ◌+◌, ◌*◌, ltb, ◌≤◌, ◌<◌, min, map, Bool-cases,
}

-- The whole seconds from `now` until `expires`, to the nearest, and at least one.
pub record IsLeft (expires now n : ℕ) : Type 0 where
  pub positive : 1 ≤ n
  pub not_above : n * 1_000_000_000 ≤ max 1_000_000_000 (expires - now + 500_000_000)
  pub not_below : expires < now + n * 1_000_000_000 + 500_000_000

-- The same record, with a time to live of at most `n`.
pub record IsCapped (n : ℕ) (old new : Rr) : Type 0 where
  pub name : new.name ≡ old.name
  pub rrtype : new.rrtype ≡ old.rrtype
  pub class : new.class ≡ old.class
  pub body : new.body ≡ old.body
  pub ttl : new.ttl ≡ min old.ttl n

-- The same records in the same order, each capped.
abbrev pub AreCapped : ℕ → List Rr → List Rr → Type 0
AreCapped n [] [] = Unit
AreCapped n [] (_ ∷ _) = ⊥
AreCapped n (_ ∷ _) [] = ⊥
AreCapped n (old ∷ olds) (new ∷ news) = IsCapped n old new × AreCapped n olds news

-- The answer `held`, as it is at `now` if it lasts until `expires`.
pub record IsAged (expires now : ℕ) (held r : Result) : Type 0 where
  pub seconds : ℕ
  pub left : IsLeft expires now seconds
  pub rcode : r.rcode ≡ held.rcode
  pub answers : AreCapped seconds held.answers r.answers
  pub authorities : r.authorities ≡ held.authorities
  pub additionals : r.additionals ≡ held.additionals

remaining_seconds-IsLeft :
    (expires now : ℕ)
    → expires < now + 1_000_000_000 * 2 ^ 31
    → IsLeft expires now (remaining_seconds expires now)
unfolding remaining_seconds
remaining_seconds-IsLeft expires now h = record {
  positive = omega arith;
  not_above = omega arith;
  not_below = omega arith;
}

cap_ttl-IsCapped : (n : ℕ) (rr : Rr) → IsCapped n rr (cap_ttl n rr)
unfolding cap_ttl
cap_ttl-IsCapped n rr = elim (Bool-cases (ltb n rr.ttl)) [
  | inl h ↦ rw h (record {
    name = refl;
    rrtype = refl;
    class = refl;
    body = refl;
    ttl = omega (arith, ltb→lt _ _ h);
  })
  | inr h ↦ rw h (record {
    name = refl;
    rrtype = refl;
    class = refl;
    body = refl;
    ttl = omega (arith, ltb→le _ _ h);
  })
]

map-AreCapped : (n : ℕ) (rrs : List Rr) → AreCapped n rrs (map (cap_ttl n) rrs)
map-AreCapped n [] = tt
map-AreCapped n (rr ∷ rrs) = (cap_ttl-IsCapped n rr, map-AreCapped n rrs)

pub aged-IsAged :
    (e : Entry) (now : ℕ)
    → e.expires < now + 1_000_000_000 * 2 ^ 31
    → IsAged e.expires now e.result (aged e now)
unfolding aged
aged-IsAged e now h = record {
  seconds = remaining_seconds e.expires now;
  left = remaining_seconds-IsLeft e.expires now h;
  rcode = refl;
  answers = map-AreCapped (remaining_seconds e.expires now) e.result.answers;
  authorities = refl;
  additionals = refl;
}

-- On a valid cache a `Set` with a positive lifetime succeeds. A `Get` of the key before the lifetime
-- ends returns the answer: the same code, authorities and additionals, and the same answer records,
-- where a time to live that is longer than what is left of the lifetime, in seconds to the nearest and at least one,
-- is that instead. From the end of the lifetime on it returns nothing. What is left is below 2^31 seconds.
pub get-set :
    (c : Cache) (k : Text) (r : Result) (ttl now t t' : ℕ)
    → IsValid c
    → 0 < ttl
    → now + ttl < t' + 1_000_000_000 * 2 ^ 31
    → (c' : Cache) × (set c k r (pos ttl) now ≡ some c')
      × (((t < now + ttl)
            × ((r' : Result) × ((get c' k t t').1 ≡ some r') × IsAged (now + ttl) t' r r'))
          ⊎ ((now + ttl ≤ t) × ((get c' k t t').1 ≡ none)))
get-set c k r ttl now t t' v p near =
    let e : Entry = record { result = r; expires = now + ttl } in
    let (c', done, hits) = get-set-aged c k r ttl now v p in
    (
      c',
      done,
      elim (Bool-cases (ltb t (now + ttl))) [
        | inl h ↦ inl (ltb→lt _ _ h, (aged e t', hits t t' ∙ rw h refl, aged-IsAged e t' near))
        | inr h ↦ inr (ltb→le _ _ h, hits t t' ∙ rw h refl)
      ],
    )
