-- ===== src/Rules/Tests.antt =====
-- The rules at concrete inputs.
use kaven_dns.Config.{parse_upstream}
use kaven_dns.Go.{
  to4, fields, trim_space, to_lower, trim_suffix, trim_prefix, has_suffix, has_prefix, parse_ip,
  split,
}
use kaven_dns.Persist.{was_missing, absent, Outcome}
use kaven_dns.Prelude.{
  none, some, [], ◌∷◌, true, false, refl, ◌≡◌, List, Text-discrete, ◌≤◌, ◌⊎◌, ◌≢◌, ◌++◌, length,
  ◌↔◌, All, codes,
}
use kaven_dns.Prelude.Assoc.{mem, Distinct}
use kaven_dns.Rules.Accepted.{validate-IsAccepted, IsAccepted}
use kaven_dns.Rules.Defs.{Match, replace_all, update, remove, find, add, Store, Rule}
use kaven_dns.Rules.Domain.{is_domain, wildcard, normalize_domain, pattern_score, match_domain}
use kaven_dns.Rules.Find.{find_lem, IsBest, candidates}
use kaven_dns.Rules.Patterns.{match_domain-wildcard, IsBelow}
use kaven_dns.Rules.Stores.{update_lem, saved_lem, IsFirst, IsSaved}
use kaven_dns.Rules.Validate.{validate}
use mathlib.Core.Option

program : Unit {0}
unfolding has_prefix has_suffix trim_prefix trim_suffix to_lower trim_space split fields mem to4
    find candidates normalize_domain match_domain pattern_score is_domain validate parse_upstream
    parse_ip update add remove Text-discrete
program = tt

abbrev group : Rule
group = record {
  id = codes "1";
  domains = codes "example.com" ∷ [];
  domain = [];
  type = codes "A";
  mode = codes "fixed";
  value = codes "1.2.3.4, 5.6.7.8";
  upstream = [];
  ttl = 60;
  enabled = true;
  remark = codes " lab ";
  created_at = 10;
  updated_at = 10;
}

abbrev narrow : Rule
narrow = record group {
  id = codes "2";
  domains = codes "*.b.example.com" ∷ codes "*.example.com" ∷ [];
}

abbrev two : Store
two = record {
  rules = group ∷ narrow ∷ [];
  path = codes "rules.json";
  disk = record { file = none; temporary = absent };
}

found :
    (Option.map (λ m. m.pattern) (find two (codes "A.b.Example.com.") (codes "A"))
      ≡ some (codes "*.b.example.com"))
    × (Option.map (λ m. m.pattern) (find two (codes "b.example.com") (codes "A"))
        ≡ some (codes "example.com"))
    × (Option.map (λ m. m.pattern) (find two (codes "example.com") (codes "AAAA")) ≡ none)
unfolding program
found = (refl, refl, refl)

accepted : (validate group).1 ≡ []
unfolding program
accepted = refl

find_lem_example :
    let ms = candidates (normalize_domain (codes "x.example.com")) (codes "A") two.rules in
    ((find two (codes "x.example.com") (codes "A") ≡ none) × (ms ≡ []))
    ⊎ ((m : Match) × (find two (codes "x.example.com") (codes "A") ≡ some m) × IsBest m ms)
find_lem_example = find_lem two (codes "x.example.com") (codes "A")

match_domain-wildcard_example :
    ((match_domain (wildcard ++ codes "b.c") (codes "a.b.c") ≡ true)
      ↔ IsBelow (codes "b.c") (codes "a.b.c"))
    × (match_domain (wildcard ++ codes "b.c") (codes "b.c") ≡ false)
match_domain-wildcard_example = match_domain-wildcard (codes "b.c") (codes "a.b.c")

validate-IsAccepted_example :
    IsAccepted (validate group).0
    × Distinct (validate group).0.domains
    × (length (validate group).0.remark ≤ 200)
validate-IsAccepted_example = validate-IsAccepted group accepted

abbrev fine : Outcome
fine = record {
  made_directory = true;
  encoded = true;
  wrote = true;
  renamed = true;
  removal = was_missing;
  renamed_again = false;
}

abbrev saved : Store
saved = record two { disk = record { file = some two.rules; temporary = absent } }

update_lem_example :
    let r = record group { id = codes "2"; created_at = 10; updated_at = 99 } in
    ((update fine (codes "2") 99 group two ≡ (two, none, true))
      × All (λ r. r.id ≢ codes "2") two.rules)
    ⊎ ((before : List Rule) × (old : Rule) × (after : List Rule) × IsFirst
          (codes "2")
          two.rules
          before
          old
          after
        × ((update fine (codes "2") 99 group two).1
            ≡ some (record r { created_at = old.created_at }))
        × ((update fine (codes "2") 99 group two).0.rules
            ≡ before ++ record r { created_at = old.created_at } ∷ after))
update_lem_example = update_lem fine two 99 (codes "2") group

saved_lem_example :
    (((add fine (codes "3") 5 group saved).2 ≡ false)
      ⊎ IsSaved (add fine (codes "3") 5 group saved).0)
    × (((update fine (codes "1") 5 group saved).2 ≡ false)
        ⊎ IsSaved (update fine (codes "1") 5 group saved).0)
    × (((remove fine (codes "1") saved).2 ≡ false) ⊎ IsSaved (remove fine (codes "1") saved).0)
    × (((replace_all fine [] saved).1 ≡ false) ⊎ IsSaved (replace_all fine [] saved).0)
saved_lem_example = saved_lem fine saved 5 (codes "3") (codes "1") group [] refl refl
