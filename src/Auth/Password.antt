-- ===== src/Auth/Password.antt =====
-- The stored form of the password.
-- The random salt and the functions of the libraries scrypt and sha256 are arguments.
use kaven_dns.Go.{split, hex_encode, hex_decode}
use kaven_dns.Prelude.{
  none, some, [], ◌∷◌, false, ℕ, List, Text, Bool, Option, ◌&&◌, ◌==◌, ◌++◌, text_eq, length,
  is_empty, if◌then◌else◌, codes,
}

pub record Crypto : Type 0 where
  -- scrypt.Key with the parameters of the source, for a password and a salt
  pub scrypt : Text → Text → Option (List ℕ)
  pub sha256 : Text → List ℕ

abbrev pub scheme : Text
scheme = codes "scrypt"

abbrev pub colon : ℕ
colon = b':'

-- `HashPassword`. An error is `none`.
unfoldable pub hash_password : Crypto → Option (List ℕ) → Text → Option Text
unfolding hex_encode
hash_password k none password = none
hash_password k (some salt) password = elim (k.scrypt password (hex_encode salt)) [
  | none ↦ none
  | some derived ↦ some (scheme ++ colon ∷ hex_encode salt ++ colon ∷ hex_encode derived)
]

-- The salt and the digest of three parts that start with the name of the scheme.
unfoldable pub scrypt_parts : List Text → Option (Text × Text)
scrypt_parts (name ∷ salt ∷ digest ∷ []) = if text_eq name scheme then some (salt, digest) else none
scrypt_parts _ = none

-- Whether the digest in hexadecimal is the candidate.
unfoldable pub same_digest : Text → Option (List ℕ) → Bool
unfolding hex_decode
same_digest digest none = false
same_digest digest (some candidate) = elim (hex_decode digest) [
  | none ↦ false
  | some expected ↦ length expected == length candidate && text_eq expected candidate
]

unfoldable pub verify_password : Crypto → Text → Text → Bool
unfolding kaven_dns.Go.split scrypt_parts same_digest
verify_password k password stored = elim (scrypt_parts (split stored colon)) [
  | some (salt, digest) ↦ same_digest digest (k.scrypt password salt)
  | none ↦
      if is_empty stored
      then false
      else same_digest stored (some (k.sha256 (codes "kaven-dns:" ++ password)))
]
