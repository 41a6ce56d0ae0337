-- ===== src/Program/Utf8.antt =====
-- Text that JSON keeps: bytes that are UTF-8.
use kaven_dns.Prelude.{
  none, some, [], ◌∷◌, zero, suc, true, false, ℕ, ◌≡◌, List, Text, Bool, Option, ◌==◌, ◌&&◌, ltb,
  leb, if◌then◌else◌, All,
}
use kaven_dns.Web.State.{System}
use kaven_dns.Config
use kaven_dns.History
use kaven_dns.Rules

-- For the first byte of a character: how many bytes follow, and the range of the next one.
abbrev pub lead : ℕ → Option (ℕ × ℕ × ℕ)
lead c =
    if ltb c 0x80
    then some (0, 0x80, 0xbf)
    else if ltb c 0xc2
    then none
    else if ltb c 0xe0
    then some (1, 0x80, 0xbf)
    else if ltb c 0xf0
    then some (2, (if c == 0xe0 then 0xa0 else 0x80), (if c == 0xed then 0x9f else 0xbf))
    else if ltb c 0xf5
    then some (3, (if c == 0xf0 then 0x90 else 0x80), (if c == 0xf4 then 0x8f else 0xbf))
    else none

-- Whether the bytes go on as UTF-8, where `n` bytes of a character are still to come, the next from
-- `low` to `high`.
abbrev pub goes_on : ℕ → ℕ → ℕ → Text → Bool
goes_on zero low high [] = true
goes_on (suc n) low high [] = false
goes_on zero low high (c ∷ s) = elim (lead c) [
  | none ↦ false
  | some (n, low', high') ↦ goes_on n low' high' s
]
goes_on (suc n) low high (c ∷ s) = leb low c && leb c high && goes_on n 0x80 0xbf s

abbrev pub is_utf8 : Text → Bool
is_utf8 t = goes_on 0 0x80 0xbf t

abbrev pub AreUtf8 : List Text → Type 0
AreUtf8 ts = All (λ t. is_utf8 t ≡ true) ts

-- The texts of a configuration, of a rule and of an entry of the history.
abbrev pub config_texts : Config.Config → List Text
config_texts c = c.bind_address ∷ c.web_bind_address ∷ c.password_hash ∷ c.upstreams

abbrev pub rule_texts : Rules.Rule → List Text
rule_texts r = r.id ∷ r.domain ∷ r.type ∷ r.mode ∷ r.value ∷ r.upstream ∷ r.remark ∷ r.domains

abbrev pub entry_texts : History.Entry → List Text
entry_texts e =
    e.client ∷ e.domain ∷ e.type ∷ e.source ∷ e.answers ∷ e.rule ∷ e.upstream ∷ e.error ∷ []

-- All that a system saves is text in UTF-8.
pub record IsText (s : System) : Type 0 where
  pub config : AreUtf8 (config_texts s.config.value)
  pub rules : All (λ r. AreUtf8 (rule_texts r)) s.rules.rules
  pub history : All (λ e. AreUtf8 (entry_texts e)) s.history.entries
  pub sessions : All (λ t. is_utf8 t.0 ≡ true) s.auth.sessions
