-- ===== src/Web/Settings.antt =====
-- The settings in the body of `putConfig`, and their checks.
-- JSON is decoded over the value that is there; the result may be the text of an error.
use kaven_dns.Auth.Password.{hash_password, verify_password}
use kaven_dns.Prelude.{
  none, some, [], ◌∷◌, true, inl, inr, pos, List, Text, Bool, Option, ◌++◌, ◌||◌, length, ltb_ℤ,
  ltb, is_empty, not, if◌then◌else◌, codes, ◌⊎◌, ℤ,
}
use kaven_dns.Web.State.{Env}
use kaven_dns.Config

abbrev pub Decode : Type 0 → Type 0
Decode A = A → A ⊎ Text

-- The keys of the body that the loop knows, with their values, in the order of its map; the order is arbitrary.
pub data Setting : Type 0 where
  dns_port web_port : Decode ℤ → Setting
  bind_address web_bind_address : Decode Text → Setting
  upstreams : Decode (List Text) → Setting
  forward_timeout_ms ttl_min ttl_max : Decode ℤ → Setting
  query_retention_days query_history_max_entries : Decode ℤ → Setting
  cache_max_entries session_ttl_hours : Decode ℤ → Setting
  new_password : Text → Setting
  unknown : Setting

-- The configuration, and whether the password changed.
abbrev pub Change : Type 0
Change = Config.Config × Bool

unfoldable pub checked : {A : Type 0} → (A → Bool) → Text → A ⊎ Text → (A → Change) → Change ⊎ Text
checked good message (inl a) next = if good a then inl (next a) else inr message
checked good message (inr _) next = inr message

abbrev pub in_port_range : ℤ → Bool
in_port_range n = not (ltb_ℤ n (pos 1) || ltb_ℤ (pos 65535) n)

-- An error leaves the value.
abbrev pub lenient : Decode ℤ → ℤ → ℤ
lenient decode n = elim (decode n) [ inl m ↦ m | inr _ ↦ n ]

-- The first upstream that is not valid.
unfoldable pub first_bad : List Text → Option Text
unfolding kaven_dns.Config.parse_upstream
first_bad [] = none
first_bad (u ∷ us) =
    let rest = first_bad us in elim (Config.parse_upstream u) [ none ↦ some u | some _ ↦ rest ]

unfoldable pub checked_upstreams :
    (Text → Text) → List Text ⊎ Text → (List Text → Change) → Change ⊎ Text
unfolding first_bad
checked_upstreams quote (inr message) next = inr message
checked_upstreams quote (inl us) next =
    if ltb (length us) 1 || ltb 8 (length us)
    then inr (codes "between 1 and 8 upstreams are required")
    else elim (first_bad us) [
      | none ↦ inl (next us)
      | some u ↦ inr (codes "invalid upstream " ++ quote u)
    ]

-- The case `newPassword`: `current` is the current password of the body, `stored` the old hash.
unfoldable pub changed_password : Env → Text → Text → Text → Change → Change ⊎ Text
unfolding kaven_dns.Auth.Password.verify_password kaven_dns.Auth.Password.hash_password
changed_password env current stored password (c, changed) =
    if is_empty password
    then inl (c, changed)
    else if not (verify_password env.crypto current stored)
    then inr (codes "current password is incorrect")
    else if ltb (length password) 6
    then inr (codes "password must contain at least 6 characters")
    else elim (hash_password env.crypto env.salt password) [
      | none ↦ inr env.error_text
      | some hash ↦ inl (record c { password_hash = hash }, true)
    ]

unfoldable pub apply_setting : Env → Text → Text → Setting → Change → Change ⊎ Text
unfolding checked checked_upstreams changed_password
apply_setting env current stored (dns_port decode) (c, p) =
    checked in_port_range (codes "dnsPort must be between 1 and 65535") (decode c.dns_port)
      (λ n. (record c { dns_port = n }, p))
apply_setting env current stored (web_port decode) (c, p) =
    checked in_port_range (codes "webPort must be between 1 and 65535") (decode c.web_port)
      (λ n. (record c { web_port = n }, p))
apply_setting env current stored (bind_address decode) (c, p) =
    checked Config.is_ip (codes "invalid DNS bind address") (decode c.bind_address)
      (λ a. (record c { bind_address = a }, p))
apply_setting env current stored (web_bind_address decode) (c, p) =
    checked Config.is_ip (codes "invalid Web bind address") (decode c.web_bind_address)
      (λ a. (record c { web_bind_address = a }, p))
apply_setting env current stored (upstreams decode) (c, p) =
    checked_upstreams env.quote (decode c.upstreams) (λ us. (record c { upstreams = us }, p))
apply_setting env current stored (forward_timeout_ms decode) (c, p) =
    inl (record c { forward_timeout_ms = lenient decode c.forward_timeout_ms }, p)
apply_setting env current stored (ttl_min decode) (c, p) =
    inl (record c { ttl_min = lenient decode c.ttl_min }, p)
apply_setting env current stored (ttl_max decode) (c, p) =
    inl (record c { ttl_max = lenient decode c.ttl_max }, p)
apply_setting env current stored (query_retention_days decode) (c, p) =
    inl (record c { query_retention_days = lenient decode c.query_retention_days }, p)
apply_setting env current stored (query_history_max_entries decode) (c, p) =
    inl (record c { query_history_max_entries = lenient decode c.query_history_max_entries }, p)
apply_setting env current stored (cache_max_entries decode) (c, p) =
    inl (record c { cache_max_entries = lenient decode c.cache_max_entries }, p)
apply_setting env current stored (session_ttl_hours decode) (c, p) =
    inl (record c { session_ttl_hours = lenient decode c.session_ttl_hours }, p)
apply_setting env current stored (new_password password) change =
    changed_password env current stored password change
apply_setting env current stored unknown change = inl change

-- The loop over the body, which ends at the first error.
unfoldable pub apply_settings : Env → Text → Text → List Setting → Change → Change ⊎ Text
unfolding apply_setting
apply_settings env current stored [] change = inl change
apply_settings env current stored (x ∷ xs) change =
    elim (apply_setting env current stored x change) [
      | inl next ↦ apply_settings env current stored xs next
      | inr message ↦ inr message
    ]
