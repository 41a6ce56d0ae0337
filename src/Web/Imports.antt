-- ===== src/Web/Imports.antt =====
-- What a request for an import leads to.
use kaven_dns.Persist.{Outcome}
use kaven_dns.Prelude.{
  none, some, [], ◌∷◌, true, false, inl, inr, refl, arith, ℕ, ◌≡◌, List, Text, Bool, ◌∙◌, take,
  codes, ap, text_eq, sym, Bool-cases, ◌+◌, length,
}
use kaven_dns.Rules.{Rule, Store, Problem}
use kaven_dns.Rules.Accepting.{AllAccepted}
use kaven_dns.Rules.Failures.{replace_all-Fails, Fails}
use kaven_dns.Rules.Stores.{rules-persist}
use kaven_dns.Web.Import.{Merged, import_valid, sift, replaced, by_signature}
use kaven_dns.Web.Importing.{
  sift-faulty, faulty, IsMerged, finished, broken, merge-IsMerged, sift-AllAccepted,
}
use kaven_dns.Web.Invariant.{IsSound, with_rules, note-IsSound}
use kaven_dns.Web.RuleRequests.{imported_rules, import_rules, import_text}
use kaven_dns.Web.State.{
  import_body, write_failed, no_rules, System, Env, Response, note, fail, done,
}
use mathlib.Core.Path.{subst}
use kaven_dns.Rules

-- The end of the import of the rules `valid`, by the mode: they replace the old ones, or they are merged
-- into them, or a write fails.
pub data IsImported (outcome : ℕ → Outcome) (mode : Text) (s : Store) (valid : List Rule)
    : Merged → Type 0 where
  replacing :
      (s' : Store)
      → text_eq mode (codes "replace") ≡ true
      → AllAccepted s'.rules
      → s'.rules ≡ valid
      → IsImported outcome mode s valid (s', some (length valid, 0))
  merging :
      (s' : Store) (a u : ℕ)
      → text_eq mode (codes "replace") ≡ false
      → AllAccepted s'.rules
      → length s'.rules ≡ length s.rules + a
      → a + u ≡ length valid
      → IsImported outcome mode s valid (s', some (a, u))
  failing :
      (s' : Store) (i : ℕ)
      → AllAccepted s'.rules
      → Fails (outcome i)
      → IsImported outcome mode s valid (s', none)

module _ (outcome : ℕ → Outcome) (mode : Text) (s : Store) (valid : List Rule) where
  merged-IsImported :
      (m : Merged)
      → text_eq mode (codes "replace") ≡ false
      → IsMerged outcome s (length valid) 0 0 m
      → IsImported outcome mode s valid m
  merged-IsImported m h (finished s' a u all grown total) =
      merging s' a u h all (omega (arith, grown)) (omega (arith, total))
  merged-IsImported m h (broken s' i all f) = failing s' i all f

  replaced-IsImported :
      (x : Store × Bool)
      → text_eq mode (codes "replace") ≡ true
      → AllAccepted valid
      → x.0.rules ≡ valid
      → (x.1 ≡ false → Fails (outcome 0))
      → IsImported outcome mode s valid (replaced valid x)
  unfolding replaced
  replaced-IsImported (s', true) h all e f = replacing s' h (subst AllAccepted (sym e) all) e
  replaced-IsImported (s', false) h all e f = failing s' 0 (subst AllAccepted (sym e) all) (f refl)

  pub import_valid-IsImported :
      (fresh : ℕ → Text) (now : ℕ)
      → AllAccepted s.rules
      → AllAccepted valid
      → IsImported outcome mode s valid (import_valid outcome fresh now mode valid s)
  unfolding import_valid kaven_dns.Rules.replace_all
  import_valid-IsImported fresh now all sound = elim (Bool-cases (text_eq mode (codes "replace"))) [
    | inl h ↦
        rw (h, import_valid)
          (replaced-IsImported (Rules.replace_all (outcome 0) valid s) h sound
            (rules-persist (outcome 0) (record s { rules = valid }))
            (replace_all-Fails (outcome 0) valid s))
    | inr h ↦
        rw (h, import_valid)
          (merged-IsImported _ h
            (merge-IsMerged outcome fresh now (by_signature s.rules []) 0 valid 0 0 s all sound))
  ]

-- What a request for an import leads to, in the state `s`.
pub data IsAnswered (env : Env) (s : System) (items : List Rule) (mode : Text)
    : System × Response → Type 0 where
  nothing : items ≡ [] → IsAnswered env s items mode (s, fail 400 no_rules)
  unwritten :
      (s' : System) (i : ℕ)
      → IsSound s'
      → Fails (env.outcome i)
      → IsAnswered env s items mode (s', fail 500 write_failed)
  replaced_all :
      (s' : System) (k : ℕ) (problems : List (ℕ × List Problem))
      → text_eq mode (codes "replace") ≡ true
      → IsSound s'
      → k ≡ faulty items
      → length s'.rules.rules + k ≡ length items
      → s'.rules.rules ≡ (sift env.now 0 items).0
      → IsAnswered env s items mode (s', done (import_body (length s'.rules.rules) 0 k problems))
  merged_in :
      (s' : System) (a u k : ℕ) (problems : List (ℕ × List Problem))
      → text_eq mode (codes "replace") ≡ false
      → IsSound s'
      → k ≡ faulty items
      → a + u + k ≡ length items
      → length s'.rules.rules ≡ length s.rules.rules + a
      → IsAnswered env s items mode (s', done (import_body a u k problems))

module _ (env : Env) (items : List Rule) (mode : Text) (s : System) where
  imported_rules-IsAnswered :
      (valid : List Rule) (skipped : List (ℕ × List Problem)) (m : Merged)
      → IsSound s
      → valid ≡ (sift env.now 0 items).0
      → length skipped ≡ faulty items
      → length valid + length skipped ≡ length items
      → IsImported env.outcome mode s.rules valid m
      → IsAnswered env s items mode (imported_rules env skipped s m)
  unfolding imported_rules
  imported_rules-IsAnswered valid skipped m v same bad total (replacing rules h all e) =
      let s₁ = record s { rules = rules } in
      let n = length valid in
      let rows : length valid ≡ length rules.rules = ap length (sym e) in
      let next = note env (codes "rules") (import_text n 0 (length skipped)) (codes "log") s₁ in
      subst
        (λ n'.
          IsAnswered env s items mode
            (next, done (import_body n' 0 (length skipped) (take 5 skipped))))
        (sym rows)
        (replaced_all next (length skipped) (take 5 skipped) h
          (note-IsSound env (codes "rules") _ (codes "log") s₁ (with_rules s rules v all)) bad
          (omega (arith, total, rows)) (e ∙ same))
  imported_rules-IsAnswered valid skipped m v same bad total (merging rules a u h all grown count) =
      let s₁ = record s { rules = rules } in
      merged_in (note env (codes "rules") (import_text a u (length skipped)) (codes "log") s₁) a u
        (length skipped) (take 5 skipped) h
        (note-IsSound env (codes "rules") _ (codes "log") s₁ (with_rules s rules v all)) bad
        (omega (arith, count, total)) grown
  imported_rules-IsAnswered valid skipped m v same bad total (failing rules i all f) =
      unwritten (record s { rules = rules }) i (with_rules s rules v all) f

-- An import keeps the program sound, and so every rule accepted. Without a rule it answers 400 and changes
-- nothing. It answers 500 only if there is a write at which the operating system reports a failure. Otherwise
-- each rule of the request is counted once, as added, updated or skipped, where those with a problem are
-- skipped. In the mode "replace" the store then has the valid rules alone, all counted as added; in any
-- other mode it has as many rules more than before as were added.
pub import_rules-IsAnswered :
    (env : Env) (items : List Rule) (mode : Text) (s : System)
    → IsSound s
    → IsAnswered env s items mode (import_rules env (some (items, mode)) s)
unfolding import_rules
import_rules-IsAnswered env [] mode s v = nothing refl
import_rules-IsAnswered env (item ∷ items) mode s v =
    let x = sift env.now 0 (item ∷ items) in
    let (all, count) = sift-AllAccepted env.now 0 (item ∷ items) in
    imported_rules-IsAnswered env (item ∷ items) mode s x.0 x.1
      (import_valid env.outcome env.fresh env.now mode x.0 s.rules) v refl
      (sift-faulty env.now 0 (item ∷ items)) count
      (import_valid-IsImported env.outcome mode s.rules x.0 env.fresh env.now v.rules all)
