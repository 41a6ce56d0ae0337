-- ===== src/Web/Editing.antt =====
-- The requests that change the rules keep the program sound.
use kaven_dns.Prelude.{
  none, some, true, false, inl, inr, List, Text, Bool, Option, codes, Option-cases,
}
use kaven_dns.Rules.{Problem}
use kaven_dns.Rules.Accepting.{
  AllAccepted, add-AllAccepted, update-AllAccepted, Checked, good, bad, validate-Checked,
}
use kaven_dns.Web.Imports.{
  merged_in, replaced_all, IsAnswered, nothing, unwritten, import_rules-IsAnswered,
}
use kaven_dns.Web.Invariant.{note-IsSound, with_rules, IsSound}
use kaven_dns.Web.RuleRequests.{
  find_rule_by_id, updated_rule, update_validated, update_rule, removed_rule, import_rules,
  added_rule, add_validated, add_rule,
}
use kaven_dns.Web.State.{System, Env, Response}
use kaven_dns.Rules

added_rule-IsSound :
    (env : Env) (s : System) (x : Rules.Store × Rules.Rule × Bool)
    → IsSound s
    → AllAccepted x.0.rules
    → IsSound (added_rule env s x).0
unfolding added_rule
added_rule-IsSound env s (rules, r, false) v all = with_rules s rules v all
added_rule-IsSound env s (rules, r, true) v all =
    note-IsSound env (codes "rules") _ (codes "log") (record s { rules = rules })
      (with_rules s rules v all)

add_validated-IsSound :
    (env : Env) (s : System) (x : Rules.Rule × List Problem)
    → IsSound s
    → Checked x
    → IsSound (add_validated env s x).0
unfolding add_validated
add_validated-IsSound env s x v (good r a) =
    added_rule-IsSound env s (Rules.add (env.outcome 0) (env.fresh 0) env.now r s.rules) v
      (add-AllAccepted (env.outcome 0) (env.fresh 0) env.now r s.rules v.rules a).0
add_validated-IsSound env s x v (bad r p ps) = v

pub add_rule-IsSound :
    (env : Env) (body : Option Rules.Rule) (s : System)
    → IsSound s
    → IsSound (add_rule env body s).0
unfolding add_rule
add_rule-IsSound env none s v = v
add_rule-IsSound env (some rule) s v =
    add_validated-IsSound env s (Rules.validate rule) v (validate-Checked rule)

updated_rule-IsSound :
    (env : Env) (s : System) (x : Rules.Store × Option Rules.Rule × Bool)
    → IsSound s
    → AllAccepted x.0.rules
    → IsSound (updated_rule env s x).0
unfolding updated_rule
updated_rule-IsSound env s (rules, r, false) v all = with_rules s rules v all
updated_rule-IsSound env s (rules, r, true) v all =
    note-IsSound env (codes "rules") _ (codes "log") (record s { rules = rules })
      (with_rules s rules v all)

update_validated-IsSound :
    (env : Env) (id : Text) (s : System) (x : Rules.Rule × List Problem)
    → IsSound s
    → Checked x
    → IsSound (update_validated env id s x).0
unfolding update_validated
update_validated-IsSound env id s x v (good r a) =
    updated_rule-IsSound env s (Rules.update (env.outcome 0) id env.now r s.rules) v
      (update-AllAccepted (env.outcome 0) id env.now r s.rules v.rules a).0
update_validated-IsSound env id s x v (bad r p ps) = v

pub update_rule-IsSound :
    (env : Env) (id : Text) (body : Option (Rules.Rule → Option Rules.Rule)) (s : System)
    → IsSound s
    → IsSound (update_rule env id body s).0
unfolding update_rule
update_rule-IsSound env id none s v = v
update_rule-IsSound env id (some patch) s v =
    elim (Option-cases (find_rule_by_id id s.rules.rules)) [
      | inl h ↦ rw (h, update_rule) v
      | inr (current, h) ↦ elim (Option-cases (patch current)) [
        | inl k ↦ rw (h, k, update_rule) v
        | inr (rule, k) ↦
            rw (h, k, update_rule)
              (update_validated-IsSound env id s (Rules.validate rule) v (validate-Checked rule))
      ]
    ]

pub removed_rule-IsSound :
    (env : Env) (id : Text) (s : System) (x : Rules.Store × Bool × Bool)
    → IsSound s
    → AllAccepted x.0.rules
    → IsSound (removed_rule env id s x).0
unfolding removed_rule
removed_rule-IsSound env id s (rules, found, false) v all = with_rules s rules v all
removed_rule-IsSound env id s (rules, false, true) v all = with_rules s rules v all
removed_rule-IsSound env id s (rules, true, true) v all =
    note-IsSound env (codes "rules") _ (codes "log") (record s { rules = rules })
      (with_rules s rules v all)

imported-IsSound :
    (env : Env) (s : System) (items : List Rules.Rule) (mode : Text) (x : System × Response)
    → IsSound s
    → IsAnswered env s items mode x
    → IsSound x.0
imported-IsSound env s items mode x v (nothing h) = v
imported-IsSound env s items mode x v (unwritten s' i sound f) = sound
imported-IsSound env s items mode x v (replaced_all s' k ps h sound b t e) = sound
imported-IsSound env s items mode x v (merged_in s' a u k ps h sound b t g) = sound

pub import_rules-IsSound :
    (env : Env) (body : Option (List Rules.Rule × Text)) (s : System)
    → IsSound s
    → IsSound (import_rules env body s).0
unfolding import_rules
import_rules-IsSound env none s v = v
import_rules-IsSound env (some (items, mode)) s v =
    imported-IsSound env s items mode (import_rules env (some (items, mode)) s) v
      (import_rules-IsAnswered env items mode s v)
