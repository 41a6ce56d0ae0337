-- ===== src/Rules/Defs.antt =====
-- The rules and their store. A reading of the clock, in milliseconds, and a new id are arguments.
use kaven_dns.Go.{itoa, join, hex_encode}
use kaven_dns.Persist.{write_json, Outcome, Disk}
use kaven_dns.Prelude.{
  none, some, [], ◌∷◌, true, false, ℕ, List, Text, Bool, Option, drop, take, codes, ◌||◌, ◌++◌,
  ◌&&◌, not, map, is_empty, text_eq, leb, if◌then◌else◌,
}
use kaven_dns.Rules.Domain.{match_domain, pattern_score, normalize_domain}

pub record Rule : Type 0 where
  pub id : Text
  pub domains : List Text
  pub domain : Text
  pub type : Text
  pub mode : Text
  pub value : Text
  pub upstream : Text
  pub ttl : ℕ
  pub enabled : Bool
  pub remark : Text
  pub created_at : ℕ
  pub updated_at : ℕ

pub record Match : Type 0 where
  pub rule : Rule
  pub pattern : Text

-- A store with an empty path keeps no file.
pub record Store : Type 0 where
  pub rules : List Rule
  pub path : Text
  pub disk : Disk (List Rule)

abbrev pub is_nil : List Text → Bool
is_nil [] = true
is_nil (_ ∷ _) = false

-- A rule of an old file has one domain in place of a list.
unfoldable pub migrate : Rule → Rule
migrate r =
    let domains =
      if is_nil r.domains && not (is_empty r.domain) then r.domain ∷ [] else r.domains in
    record r { domains = map normalize_domain domains; domain = [] }

-- What reading the file gives: no file, another error or a wrong content, or the rules.
pub data FileRead : Type 0 where
  missing : FileRead
  failed : FileRead
  loaded : List Rule → FileRead

unfoldable pub load : Text → Disk (List Rule) → FileRead → Option Store
unfolding migrate
load path disk missing = some (record { rules = []; path = path; disk = disk })
load path disk failed = none
load path disk (loaded rules) =
    some (record { rules = map migrate rules; path = path; disk = disk })

unfoldable pub new : List Rule → Disk (List Rule) → Store
new items disk = record { rules = items; path = []; disk = disk }

-- `persistLocked`, and whether it succeeded.
unfoldable pub persist : Outcome → Store → Store × Bool
persist o s =
    let (disk, saved) = write_json o s.rules s.disk in
    if is_empty s.path then (s, true) else (record s { disk = disk }, saved)

unfoldable pub stamp : Text → ℕ → Rule → Rule
stamp fresh now rule = record rule {
  id = if is_empty rule.id then fresh else rule.id;
  created_at = now;
  updated_at = now;
}

unfoldable pub add : Outcome → Text → ℕ → Rule → Store → Store × Rule × Bool
unfolding stamp persist
add o fresh now rule s =
    let rule' = stamp fresh now rule in
    let (s', saved) = persist o (record s { rules = s.rules ++ rule' ∷ [] }) in (s', rule', saved)

-- The rule that replaces `old`.
unfoldable pub renew : Text → ℕ → Rule → Rule → Rule
renew id now old rule = record rule { id = id; created_at = old.created_at; updated_at = now }

-- The loop of `Update`: the new rule and the list with it in the place of the first with the id.
unfoldable pub update_from : Text → ℕ → Rule → List Rule → Option (Rule × List Rule)
unfolding renew
update_from id now rule [] = none
update_from id now rule (r ∷ rs) =
    let rest = update_from id now rule rs in
    if text_eq r.id id
    then some (renew id now r rule, renew id now r rule ∷ rs)
    else elim rest [ none ↦ none | some (rule', rs') ↦ some (rule', r ∷ rs') ]

-- The rule, if it was found, and whether the write succeeded.
unfoldable pub update : Outcome → Text → ℕ → Rule → Store → Store × Option Rule × Bool
unfolding update_from persist
update o id now rule s = elim (update_from id now rule s.rules) [
  | none ↦ (s, none, true)
  | some (rule', rs) ↦
      let (s', saved) = persist o (record s { rules = rs }) in (s', some rule', saved)
]

-- The loop of `Remove`: the list without the first rule with the id.
unfoldable pub remove_from : Text → List Rule → Option (List Rule)
remove_from id [] = none
remove_from id (r ∷ rs) =
    let rest = remove_from id rs in
    if text_eq r.id id then some rs else elim rest [ none ↦ none | some rs' ↦ some (r ∷ rs') ]

-- Whether the rule was found, and whether the write succeeded.
unfoldable pub remove : Outcome → Text → Store → Store × Bool × Bool
unfolding remove_from persist
remove o id s = elim (remove_from id s.rules) [
  | none ↦ (s, false, true)
  | some rs ↦ let (s', saved) = persist o (record s { rules = rs }) in (s', true, saved)
]

unfoldable pub replace_all : Outcome → List Rule → Store → Store × Bool
unfolding persist
replace_all o items s = persist o (record s { rules = items })

-- Whether a rule answers queries of a type.
unfoldable pub answers_type : Rule → Text → Bool
answers_type rule query_type =
    text_eq rule.type query_type
    || (text_eq rule.type (codes "CNAME")
        && (text_eq query_type (codes "A") || text_eq query_type (codes "AAAA")))

-- The best match so far with its score; none has the score -1.
abbrev pub Best : Type 0
Best = Option (Match × ℕ)

-- `score >= bestScore`.
abbrev pub beats : ℕ → Best → Bool
beats score none = true
beats score (some (_, best)) = leb best score

-- The inner loop of `Find`, over the patterns of a rule.
unfoldable pub find_pattern : Text → Rule → List Text → Best → Best
find_pattern domain rule [] best = best
find_pattern domain rule (p ∷ ps) best =
    let score = pattern_score p in
    find_pattern domain rule ps (
      if not (match_domain p domain)
      then best
      else if beats score best
      then some (record { rule = rule; pattern = p }, score)
      else best)

-- The outer loop.
unfoldable pub find_rule : Text → Text → List Rule → Best → Best
unfolding find_pattern answers_type
find_rule domain query_type [] best = best
find_rule domain query_type (r ∷ rs) best = find_rule domain query_type rs (
    if not r.enabled
    then best
    else if not (answers_type r query_type)
    then best
    else find_pattern domain r r.domains best)

unfoldable pub find : Store → Text → Text → Option Match
unfolding find_rule
find s domain query_type = elim (find_rule (normalize_domain domain) query_type s.rules none) [
  | none ↦ none
  | some (m, _) ↦ some m
]

-- `UnmarshalJSON`: the decoded rule, and the value of the field `enabled`, if it is there.
unfoldable pub with_enabled : Option Bool → Rule → Rule
with_enabled none r = record r { enabled = true }
with_enabled (some b) r = record r { enabled = b }

-- `newID` from 16 random bytes, or else from the nanoseconds of the clock.
unfoldable pub new_id : Option (List ℕ) → ℕ → Text
new_id none now = itoa now
new_id (some bytes) now = join (codes "-") (
    hex_encode (take 4 bytes)
    ∷ hex_encode (take 2 (drop 4 bytes))
    ∷ hex_encode (take 2 (drop 6 bytes))
    ∷ hex_encode (take 2 (drop 8 bytes))
    ∷ hex_encode (take 6 (drop 10 bytes))
    ∷ [])
