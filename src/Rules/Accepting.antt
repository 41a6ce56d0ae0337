-- ===== src/Rules/Accepting.antt =====
-- A store whose rules `Validate` accepts keeps such rules when accepted ones are put into it.
use kaven_dns.Persist.{Outcome}
use kaven_dns.Prelude.{
  [], ◌∷◌, inl, inr, refl, ℕ, ◌≡◌, List, Text, ap, sym, All-unappend, length-append, ◌++◌, is_empty,
  if◌then◌else◌, ◌+◌, length, All-append, All,
}
use kaven_dns.Rules.Accepted.{validate-IsAccepted, IsAccepted}
use kaven_dns.Rules.Defs.{update, stamp, remove, add, Store, Rule}
use kaven_dns.Rules.Stores.{rules-persist, update_lem, remove_lem, IsFirst}
use kaven_dns.Rules.Validate.{validate, Problem}
use mathlib.Core.Path.{◌∙◌, subst}

-- The id and the times of a rule do not matter.
pub like-IsAccepted :
    (r : Rule) (id : Text) (created_at updated_at : ℕ)
    → IsAccepted r
    → IsAccepted (record r { id = id; created_at = created_at; updated_at = updated_at })
like-IsAccepted r id created_at updated_at a = record {
  some_domain = a.some_domain;
  few_domains = a.few_domains;
  each_domain = a.each_domain;
  type = a.type;
  ttl = a.ttl;
  upstream = a.upstream;
  mode = elim a.mode [
    | inl m ↦ inl m
    | inr (m, answer) ↦ inr (m, record { some_value = answer.some_value; suits = answer.suits })
  ];
}

abbrev pub AllAccepted : List Rule → Type 0
AllAccepted rs = All IsAccepted rs

pub add-AllAccepted :
    (o : Outcome) (fresh : Text) (now : ℕ) (r : Rule) (s : Store)
    → AllAccepted s.rules
    → IsAccepted r
    → AllAccepted (add o fresh now r s).0.rules
      × (length (add o fresh now r s).0.rules ≡ length s.rules + 1)
unfolding add stamp
add-AllAccepted o fresh now r s all a =
    let id = if is_empty r.id then fresh else r.id in
    rw (rules-persist o (record s { rules = s.rules ++ stamp fresh now r ∷ [] })) (
      All-append IsAccepted s.rules (stamp fresh now r ∷ []) all
          (like-IsAccepted r id now now a, tt),
      length-append s.rules (stamp fresh now r ∷ []),
    )

split-AllAccepted :
    (id : Text) (s : Store) (before : List Rule) (old : Rule) (after : List Rule)
    → AllAccepted s.rules
    → IsFirst id s.rules before old after
    → AllAccepted before × AllAccepted after
split-AllAccepted id s before old after all first =
    let (left, (_, right)) =
      All-unappend IsAccepted before (old ∷ after) (subst AllAccepted first.split all) in
    (left, right)

pub update-AllAccepted :
    (o : Outcome) (id : Text) (now : ℕ) (r : Rule) (s : Store)
    → AllAccepted s.rules
    → IsAccepted r
    → AllAccepted (update o id now r s).0.rules
      × (length (update o id now r s).0.rules ≡ length s.rules)
update-AllAccepted o id now r s all a = elim (update_lem o s now id r) [
  | inl (e, _) ↦ rw e (all, refl)
  | inr (before, old, after, first, _, rules) ↦
      let (left, right) = split-AllAccepted id s before old after all first in
      rw rules (
        All-append IsAccepted before _ left (like-IsAccepted r id old.created_at now a, right),
        length-append before _
            ∙ sym (length-append before (old ∷ after))
            ∙ ap length (sym first.split),
      )
]

pub remove-AllAccepted :
    (o : Outcome) (id : Text) (s : Store)
    → AllAccepted s.rules
    → AllAccepted (remove o id s).0.rules
remove-AllAccepted o id s all = elim (remove_lem o s id) [
  | inl (e, _) ↦ rw e all
  | inr (before, old, after, first, _, rules) ↦
      let (left, right) = split-AllAccepted id s before old after all first in
      rw rules (All-append IsAccepted before after left right)
]

-- What `Validate` returns is accepted, or it has problems.
pub data Checked : Rule × List Problem → Type 0 where
  good : (r : Rule) → IsAccepted r → Checked (r, [])
  bad : (r : Rule) (p : Problem) (ps : List Problem) → Checked (r, p ∷ ps)

pair-Checked : (x : Rule × List Problem) → (x.1 ≡ [] → IsAccepted x.0) → Checked x
pair-Checked (r, []) h = good r (h refl)
pair-Checked (r, p ∷ ps) h = bad r p ps

pub validate-Checked : (r : Rule) → Checked (validate r)
validate-Checked r = pair-Checked (validate r) (λ h. (validate-IsAccepted r h).0)
