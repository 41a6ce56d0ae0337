-- ===== src/Auth/Stored.antt =====
-- Which passwords a stored form accepts.
use kaven_dns.Auth.Password.{
  Crypto, verify_password, same_digest, hash_password, scheme, colon, scrypt_parts,
}
use kaven_dns.Go.{split_from, split, hex_value, hex_encode, hex_digit, hex_decode}
use kaven_dns.Prelude.{
  none, some, [], ◌∷◌, true, false, inl, inr, refl, arith, ℕ, ◌≡◌, List, Text, Option, append_assoc,
  append-nil, Option-cases, sym, Text-discrete, ◌≢◌, ◌⊎◌, ◌+◌, ap, ◌∙◌, ◌*◌, ◌++◌, ◌%◌, ◌==◌, ◌/◌,
  ◌<◌, All,
}

abbrev pub IsByte : ℕ → Type 0
IsByte b = b < 256

abbrev NoColon : Text → Type 0
NoColon s = All (λ c. (c == colon) ≡ false) s

hex_digit-colon : (d : ℕ) → (hex_digit d == colon) ≡ false
unfolding hex_digit
hex_digit-colon d = ground arith

hex_encode-NoColon : (bs : List ℕ) → NoColon (hex_encode bs)
unfolding hex_encode
hex_encode-NoColon [] = tt
hex_encode-NoColon (b ∷ bs) =
    (hex_digit-colon (b / 16), (hex_digit-colon (b % 16), hex_encode-NoColon bs))

hex_value-hex_digit : (d : ℕ) → d < 16 → hex_value (hex_digit d) ≡ some d
unfolding hex_value hex_digit
hex_value-hex_digit d h = ground arith

hex_decode_step :
    (c d high low : ℕ) (s : Text) (bs : List ℕ)
    → hex_value c ≡ some high
    → hex_value d ≡ some low
    → hex_decode s ≡ some bs
    → hex_decode (c ∷ d ∷ s) ≡ some ((high * 16 + low) ∷ bs)
unfolding hex_decode
hex_decode_step c d high low s bs h l e = rw (h, l, e, hex_decode) refl

-- Decoding the encoding of bytes gives the bytes.
pub hex_decode-hex_encode : (bs : List ℕ) → All IsByte bs → hex_decode (hex_encode bs) ≡ some bs
unfolding hex_decode hex_encode
hex_decode-hex_encode [] h = refl
hex_decode-hex_encode (b ∷ bs) (small, h) =
    hex_decode_step (hex_digit (b / 16)) (hex_digit (b % 16)) (b / 16) (b % 16) (hex_encode bs) bs
      (hex_value-hex_digit (b / 16) (omega (arith, small)))
      (hex_value-hex_digit (b % 16) (omega arith)) (hex_decode-hex_encode bs h)
    ∙ ap (λ n. some (n ∷ bs)) (omega arith)

split_from-whole : (cur s : Text) → NoColon s → split_from colon cur s ≡ (cur ++ s) ∷ []
unfolding split_from
split_from-whole cur [] h = ap (λ t. t ∷ []) (sym (append-nil cur))
split_from-whole cur (c ∷ s) (e, h) =
    rw (e, split_from-whole (cur ++ c ∷ []) s h) (ap (λ t. t ∷ []) (append_assoc cur (c ∷ []) s))

split_from-first :
    (cur s t : Text)
    → NoColon s
    → split_from colon cur (s ++ colon ∷ t) ≡ (cur ++ s) ∷ split_from colon [] t
unfolding split_from
split_from-first cur [] t h = ap (λ u. u ∷ split_from colon [] t) (sym (append-nil cur))
split_from-first cur (c ∷ s) t (e, h) =
    rw (e, split_from-first (cur ++ c ∷ []) s t h)
      (ap (λ u. u ∷ split_from colon [] t) (append_assoc cur (c ∷ []) s))

split_stored :
    (salt derived : List ℕ)
    → scrypt_parts (split (scheme ++ colon ∷ hex_encode salt ++ colon ∷ hex_encode derived) colon)
      ≡ some (hex_encode salt, hex_encode derived)
unfolding scrypt_parts Text-discrete split
split_stored salt derived =
    rw
      (
        split_from-first [] scheme (hex_encode salt ++ colon ∷ hex_encode derived)
            (refl, (refl, (refl, (refl, (refl, (refl, tt)))))),
        split_from-first [] (hex_encode salt) (hex_encode derived) (hex_encode-NoColon salt),
        split_from-whole [] (hex_encode derived) (hex_encode-NoColon derived),
      )
      refl

-- The candidate is the digest, or it is not and the comparison says so.
same_digest-cases :
    (derived : List ℕ) (candidate : Option (List ℕ))
    → All IsByte derived
    → ((same_digest (hex_encode derived) candidate ≡ true) × (candidate ≡ some derived))
      ⊎ ((same_digest (hex_encode derived) candidate ≡ false) × (candidate ≢ some derived))
unfolding same_digest
same_digest-cases derived none h = inr (refl, cc)
same_digest-cases derived (some candidate) h =
    let decoded = hex_decode-hex_encode derived h in
    elim (Text-discrete derived candidate) [
      | yes e ↦ inl (ground (arith, decoded, e), ap some (sym e))
      | no e ↦ inr (ground (arith, decoded, e), λ same. e (cc))
    ]

hash_password-some :
    (k : Crypto) (salt : List ℕ) (password stored : Text)
    → hash_password k (some salt) password ≡ some stored
    → (derived : List ℕ) × (k.scrypt password (hex_encode salt) ≡ some derived)
      × (stored ≡ scheme ++ colon ∷ hex_encode salt ++ colon ∷ hex_encode derived)
unfolding hash_password
hash_password-some k salt password stored e =
    elim (Option-cases (k.scrypt password (hex_encode salt))) [
      | inl h ↦ absurd (ground (arith, e, h))
      | inr (derived, h) ↦ (derived, h, ground (arith, e, h))
    ]

verify_password-stored :
    (k : Crypto) (salt derived : List ℕ) (other : Text)
    → verify_password k other (scheme ++ colon ∷ hex_encode salt ++ colon ∷ hex_encode derived)
      ≡ same_digest (hex_encode derived) (k.scrypt other (hex_encode salt))
unfolding verify_password
verify_password-stored k salt derived other = rw (split_stored salt derived, verify_password) refl

module _ (k : Crypto) (salt derived : List ℕ) (small : All IsByte derived) where
  form-cases :
      (p : Text)
      → let form = scheme ++ colon ∷ hex_encode salt ++ colon ∷ hex_encode derived in
        ((verify_password k p form ≡ true) × (k.scrypt p (hex_encode salt) ≡ some derived))
        ⊎ ((verify_password k p form ≡ false) × (k.scrypt p (hex_encode salt) ≢ some derived))
  form-cases p =
      rw (verify_password-stored k salt derived p)
        (same_digest-cases derived (k.scrypt p (hex_encode salt)) small)

-- A password is accepted against the stored form of another exactly if the key derived from it, with the
-- stored salt, is the stored key: the password that was stored is accepted, and one with another key
-- is not. The keys that scrypt derives are lists of bytes.
pub verify_password-hash_password :
    (k : Crypto) (salt : List ℕ) (password other stored : Text)
    → ((p s : Text) (key : List ℕ) → k.scrypt p s ≡ some key → All IsByte key)
    → hash_password k (some salt) password ≡ some stored
    → (verify_password k password stored ≡ true)
      × (((verify_password k other stored ≡ true)
            × (k.scrypt other (hex_encode salt) ≡ k.scrypt password (hex_encode salt)))
          ⊎ ((verify_password k other stored ≡ false)
              × (k.scrypt other (hex_encode salt) ≢ k.scrypt password (hex_encode salt))))
verify_password-hash_password k salt password other stored bytes e =
    let (derived, key, form) = hash_password-some k salt password stored e in
    let small = bytes password (hex_encode salt) derived key in
    (
      rw form (elim (form-cases k salt derived small password) [
        | inl (ok, _) ↦ ok
        | inr (_, differs) ↦ absurd (differs key)
      ]),
      rw (form, key) (form-cases k salt derived small other),
    )
