-- ===== src/Web/RuleRequests.antt =====
-- The handlers of the requests that change the rules.
-- A body that was read from JSON is an option: `none` stands for one that is not valid.
use kaven_dns.Go.{itoa}
use kaven_dns.Prelude.{
  none, some, [], ◌∷◌, true, false, ℕ, List, Text, Bool, Option, take, length, ◌++◌, text_eq,
  if◌then◌else◌, codes,
}
use kaven_dns.Rules.{Problem}
use kaven_dns.Web.Import.{Merged, import_valid, sift}
use kaven_dns.Web.State.{
  invalid_rule, import_body, rule_not_found, rule_body, no_rules, write_failed, rule_problems,
  ok_body, not_json, fail, done, first_domain, Response, note, System, Env,
}
use kaven_dns.Rules

unfoldable pub added_rule : Env → System → Rules.Store × Rules.Rule × Bool → System × Response
unfolding note first_domain
added_rule env s (rules, r, false) = (record s { rules = rules }, fail 500 write_failed)
added_rule env s (rules, r, true) = (
  note env (codes "rules") (codes "added " ++ first_domain r) (codes "log")
      (record s { rules = rules }),
  record { status = 201; body = rule_body (some r) },
)

-- The rule and the problems that `Validate` returns.
unfoldable pub add_validated : Env → System → Rules.Rule × List Problem → System × Response
unfolding added_rule kaven_dns.Rules.add
add_validated env s (valid, p ∷ ps) = (s, fail 400 (rule_problems (p ∷ ps)))
add_validated env s (valid, []) =
    added_rule env s (Rules.add (env.outcome 0) (env.fresh 0) env.now valid s.rules)

unfoldable pub add_rule : Env → Option Rules.Rule → System → System × Response
unfolding add_validated kaven_dns.Rules.validate
add_rule env none s = (s, fail 400 not_json)
add_rule env (some rule) s = add_validated env s (Rules.validate rule)

-- The loop of `updateRule` over the rules.
unfoldable pub find_rule_by_id : Text → List Rules.Rule → Option Rules.Rule
find_rule_by_id id [] = none
find_rule_by_id id (r ∷ rs) =
    let rest = find_rule_by_id id rs in if text_eq r.id id then some r else rest

abbrev pub first_domain_of : Option Rules.Rule → Text
first_domain_of none = codes "?"
first_domain_of (some r) = first_domain r

unfoldable pub updated_rule :
    Env → System → Rules.Store × Option Rules.Rule × Bool → System × Response
unfolding note first_domain
updated_rule env s (rules, r, false) = (record s { rules = rules }, fail 500 write_failed)
updated_rule env s (rules, r, true) = (
  note env (codes "rules") (codes "updated " ++ first_domain_of r) (codes "log")
      (record s { rules = rules }),
  done (rule_body r),
)

unfoldable pub update_validated :
    Env → Text → System → Rules.Rule × List Problem → System × Response
unfolding updated_rule kaven_dns.Rules.update
update_validated env id s (valid, p ∷ ps) = (s, fail 400 (rule_problems (p ∷ ps)))
update_validated env id s (valid, []) =
    updated_rule env s (Rules.update (env.outcome 0) id env.now valid s.rules)

-- `patch` is the body: the rule whose JSON is the given rule's with the keys of the body put over
-- it, unless that is no rule.
unfoldable pub update_rule :
    Env → Text → Option (Rules.Rule → Option Rules.Rule) → System → System × Response
unfolding find_rule_by_id update_validated kaven_dns.Rules.validate
update_rule env id none s = (s, fail 400 not_json)
update_rule env id (some patch) s = elim (find_rule_by_id id s.rules.rules) [
  | none ↦ (s, fail 404 rule_not_found)
  | some current ↦ elim (patch current) [
    | none ↦ (s, fail 400 invalid_rule)
    | some rule ↦ update_validated env id s (Rules.validate rule)
  ]
]

unfoldable pub removed_rule : Env → Text → System → Rules.Store × Bool × Bool → System × Response
unfolding note
removed_rule env id s (rules, found, false) = (record s { rules = rules }, fail 500 write_failed)
removed_rule env id s (rules, false, true) = (record s { rules = rules }, fail 404 rule_not_found)
removed_rule env id s (rules, true, true) = (
  note env (codes "rules") (codes "removed rule " ++ id) (codes "log") (record s { rules = rules }),
  done ok_body,
)

unfoldable pub remove_rule : Env → Text → System → System × Response
unfolding removed_rule kaven_dns.Rules.remove
remove_rule env id s = removed_rule env id s (Rules.remove (env.outcome 0) id s.rules)

unfoldable pub import_text : ℕ → ℕ → ℕ → Text
unfolding itoa
import_text added updated skipped =
    codes "imported: +"
    ++ itoa added
    ++ codes " added, "
    ++ itoa updated
    ++ codes " updated, "
    ++ itoa skipped
    ++ codes " skipped"

unfoldable pub imported_rules : Env → List (ℕ × List Problem) → System → Merged → System × Response
unfolding note
imported_rules env skipped s (rules, none) = (record s { rules = rules }, fail 500 write_failed)
imported_rules env skipped s (rules, some (added, updated)) = (
  note env (codes "rules") (import_text added updated (length skipped)) (codes "log")
      (record s { rules = rules }),
  done (import_body added updated (length skipped) (take 5 skipped)),
)

-- The rules and the mode of the body.
unfoldable pub import_rules : Env → Option (List Rules.Rule × Text) → System → System × Response
unfolding imported_rules sift import_valid
import_rules env none s = (s, fail 400 not_json)
import_rules env (some ([], mode)) s = (s, fail 400 no_rules)
import_rules env (some (item ∷ items, mode)) s =
    let (valid, skipped) = sift env.now 0 (item ∷ items) in
    imported_rules env skipped s (import_valid env.outcome env.fresh env.now mode valid s.rules)
