-- ===== src/Rules/Find.antt =====
-- What `Find` finds: of all the candidates the last among the best.
-- The matches of a rule's patterns, in order.
use kaven_dns.Prelude.{
  leb→lt, leb→le, ◌++◌, ◌&&◌, leb, ◌⊎◌, ◌≤◌, ◌<◌, if◌then◌else◌, Bool-cases, All, none, some, [],
  ◌∷◌, inl, inr, refl, arith, ℕ, ◌≡◌, List, Text,
}
use kaven_dns.Rules.Defs.{
  beats, Store, Best, find_rule, find_pattern, find, answers_type, Rule, Match,
}
use kaven_dns.Rules.Domain.{normalize_domain, match_domain, pattern_score}

unfoldable pub of_patterns : Text → Rule → List Text → List Match
of_patterns domain rule [] = []
of_patterns domain rule (p ∷ ps) =
    if match_domain p domain
    then record { rule = rule; pattern = p } ∷ of_patterns domain rule ps
    else of_patterns domain rule ps

-- All the matches of enabled rules of a suitable type, in the order of the store.
unfoldable pub candidates : Text → Text → List Rule → List Match
unfolding of_patterns answers_type
candidates domain query_type [] = []
candidates domain query_type (r ∷ rs) =
    (if r.enabled && answers_type r query_type then of_patterns domain r r.domains else [])
    ++ candidates domain query_type rs

abbrev pub score : Match → ℕ
score m = pattern_score m.pattern

-- `m` stands among the matches, none of those before it has a higher score, and those behind it
-- have lower ones.
pub data IsBest (m : Match) : List Match → Type 0 where
  here :
      (x : Match) (after : List Match)
      → x ≡ m
      → All (λ y. score y < score m) after
      → IsBest m (x ∷ after)
  later : (x : Match) (rest : List Match) → score x ≤ score m → IsBest m rest → IsBest m (x ∷ rest)

-- The two loops as one, over the candidates.
choose : List Match → Best → Best
choose [] best = best
choose (m ∷ ms) best = choose ms (if beats (score m) best then some (m, score m) else best)

choose-append :
    (xs ys : List Match) (best : Best) → choose (xs ++ ys) best ≡ choose ys (choose xs best)
unfolding choose
choose-append [] ys best = refl
choose-append (x ∷ xs) ys best = choose-append xs ys _

find_pattern-choose :
    (domain : Text) (rule : Rule) (ps : List Text) (best : Best)
    → find_pattern domain rule ps best ≡ choose (of_patterns domain rule ps) best
unfolding find_pattern of_patterns choose
find_pattern-choose domain rule [] best = refl
find_pattern-choose domain rule (p ∷ ps) best = elim (Bool-cases (match_domain p domain)) [
  | inl e ↦ rw e (find_pattern-choose domain rule ps _)
  | inr e ↦ rw e (find_pattern-choose domain rule ps best)
]

find_rule-choose :
    (domain query_type : Text) (rs : List Rule) (best : Best)
    → find_rule domain query_type rs best ≡ choose (candidates domain query_type rs) best
unfolding find_rule candidates choose
find_rule-choose domain query_type [] best = refl
find_rule-choose domain query_type (r ∷ rs) best = ground (
  arith,
  find_rule-choose domain query_type rs best,
  find_rule-choose domain query_type rs (find_pattern domain r r.domains best),
  find_pattern-choose domain r r.domains best,
  choose-append (of_patterns domain r r.domains) (candidates domain query_type rs) best,
)

head-le : {m x : Match} {ms : List Match} → IsBest m (x ∷ ms) → score x ≤ score m
head-le (here x after e h) = rw e (omega arith)
head-le (later x rest h b) = h

-- A match that is no better than the next one may stand in front.
skip :
    {m x y : Match} {ms : List Match}
    → score y ≤ score x
    → IsBest m (x ∷ ms)
    → IsBest m (y ∷ x ∷ ms)
skip {x = x} {y = y} {ms = ms} h b = later y (x ∷ ms) (omega (arith, head-le b)) b

-- A match that is worse than the one in front of it does not matter.
pass :
    {m x y : Match} {ms : List Match}
    → score x < score y
    → IsBest m (y ∷ ms)
    → IsBest m (y ∷ x ∷ ms)
pass h (here y after e all_below) = here y _ e (rw (← e) h, all_below)
pass {x = x} h (later y rest g b) = later y _ g (later x rest (omega arith) b)

choose-IsBest :
    (ms : List Match) (m : Match)
    → (m' : Match) × (choose ms (some (m, score m)) ≡ some (m', score m')) × IsBest m' (m ∷ ms)
unfolding choose
choose-IsBest [] m = (m, refl, here m [] refl tt)
choose-IsBest (x ∷ ms) m = elim (Bool-cases (leb (score m) (score x))) [
  | inl e ↦ let (m', found, best) = choose-IsBest ms x in (m', rw e found, skip (leb→le _ _ e) best)
  | inr e ↦ let (m', found, best) = choose-IsBest ms m in (m', rw e found, pass (leb→lt _ _ e) best)
]

choose-cases :
    (ms : List Match)
    → ((choose ms none ≡ none) × (ms ≡ []))
      ⊎ ((m : Match) × (choose ms none ≡ some (m, score m)) × IsBest m ms)
unfolding choose
choose-cases [] = inl (refl, refl)
choose-cases (m ∷ ms) = inr (choose-IsBest ms m)

-- `Find` finds nothing exactly if no pattern of an enabled rule of a suitable type matches. Otherwise
-- it finds the one of those matches with the highest score that stands last.
pub find_lem :
    (s : Store) (domain query_type : Text)
    → let ms = candidates (normalize_domain domain) query_type s.rules in
      ((find s domain query_type ≡ none) × (ms ≡ []))
      ⊎ ((m : Match) × (find s domain query_type ≡ some m) × IsBest m ms)
unfolding find
find_lem s domain query_type =
    let d = normalize_domain domain in
    let same = find_rule-choose d query_type s.rules none in
    elim (choose-cases (candidates d query_type s.rules)) [
      | inl (nothing, empty) ↦ inl (ground (arith, same, nothing), empty)
      | inr (m, found, best) ↦ inr (m, ground (arith, same, found), best)
    ]
