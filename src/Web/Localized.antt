-- ===== src/Web/Localized.antt =====
-- The Chinese texts say what the English ones do.
use kaven_dns.Auth.Defs.{no_session, incorrect_password, logged_in, locked, LoginResult}
use kaven_dns.Go.{is_space, has_prefix, itoa}
use kaven_dns.Prelude.{[], ◌∷◌, true, refl, ℕ, ◌≡◌, List, Text, ap, ◌∙◌, ◌^◌, ◌<◌, map, ◌++◌, codes}
use kaven_dns.Rules.{Problem}
use kaven_dns.Rules.Validate.{
  Problem, no_domain, too_many_domains, invalid_domain, unsupported_type, unsupported_mode,
  ttl_out_of_range, invalid_upstream, no_answer, not_ipv4, not_ipv6, not_hostname,
}
use kaven_dns.SystemInfo.Reading.{itoa-IsField, white_from_field}
use kaven_dns.SystemInfo.Sampling.{white_fields, white_from}
use kaven_dns.Web.Localize.{
  Shown, chinese, zh_locked, RuleText, zh_no_domain, zh_too_many, zh_domain, zh_type, zh_mode,
  zh_ttl, zh_rule_upstream, zh_ipv4, zh_ipv6, zh_hostname, zh_no_answer, rule_text,
  localize_rule_problems, localize_auth_error, wants_chinese,
}

-- The messages of `Validate`.
unfoldable pub problem_text : Problem → Text
problem_text no_domain = codes "At least one domain is required"
problem_text too_many_domains = codes "At most 500 domains per rule"
problem_text (invalid_domain d) = codes "Invalid domain: " ++ d
problem_text unsupported_type = codes "Unsupported record type"
problem_text unsupported_mode = codes "Unsupported rule mode"
problem_text ttl_out_of_range = codes "TTL must be between 1 and 86400"
problem_text invalid_upstream = codes "Invalid upstream"
problem_text no_answer = codes "A fixed answer is required"
problem_text not_ipv4 = codes "A records require IPv4 addresses"
problem_text not_ipv6 = codes "AAAA records require IPv6 addresses"
problem_text not_hostname = codes "CNAME requires one hostname"

-- The Chinese text of each problem.
abbrev pub meant : Problem → RuleText
meant no_domain = zh_no_domain
meant too_many_domains = zh_too_many
meant (invalid_domain d) = zh_domain
meant unsupported_type = zh_type
meant unsupported_mode = zh_mode
meant ttl_out_of_range = zh_ttl
meant invalid_upstream = zh_rule_upstream
meant no_answer = zh_no_answer
meant not_ipv4 = zh_ipv4
meant not_ipv6 = zh_ipv6
meant not_hostname = zh_hostname

rule_text-problem_text : (p : Problem) → rule_text (problem_text p) ≡ meant p
unfolding rule_text problem_text
rule_text-problem_text no_domain = refl
rule_text-problem_text too_many_domains = refl
rule_text-problem_text (invalid_domain d) = refl
rule_text-problem_text unsupported_type = refl
rule_text-problem_text unsupported_mode = refl
rule_text-problem_text ttl_out_of_range = refl
rule_text-problem_text invalid_upstream = refl
rule_text-problem_text no_answer = refl
rule_text-problem_text not_ipv4 = refl
rule_text-problem_text not_ipv6 = refl
rule_text-problem_text not_hostname = refl

-- The messages of `Login`.
unfoldable pub login_text : LoginResult → Text
login_text (locked seconds) =
    codes "Too many attempts; try again in " ++ (itoa seconds ++ codes " seconds")
login_text incorrect_password = codes "Incorrect password"
login_text no_session = codes "Unable to create session"
login_text (logged_in t) = []

abbrev pub all_meant : List Problem → List (Shown RuleText)
all_meant [] = []
all_meant (p ∷ ps) = chinese (meant p) ∷ all_meant ps

rule_texts :
    (ps : List Problem) → map (λ t. chinese (rule_text t)) (map problem_text ps) ≡ all_meant ps
rule_texts [] = refl
rule_texts (p ∷ ps) = cc (rule_text-problem_text p, rule_texts ps)

abbrev attempts : List Text
attempts =
    codes "Too" ∷ codes "many" ∷ codes "attempts;" ∷ codes "try" ∷ codes "again" ∷ codes "in" ∷ []

attempts_fields :
    (t : Text)
    → white_fields (codes "Too many attempts; try again in " ++ t) ≡ attempts ++ white_from [] t
unfolding white_fields white_from is_space
attempts_fields t = refl

seconds_field : white_from [] (codes "seconds") ≡ codes "seconds" ∷ []
unfolding white_from is_space
seconds_field = refl

locked_fields :
    (n : ℕ)
    → n < 2 ^ 64
    → white_from [] (itoa n ++ codes " seconds") ≡ itoa n ∷ codes "seconds" ∷ []
locked_fields n h =
    let (full, plain) = itoa-IsField n h in
    white_from_field [] (itoa n) (codes "seconds") plain full ∙ ap (◌∷◌ (itoa n)) seconds_field

locked_text :
    (accept : Text) (n : ℕ)
    → n < 2 ^ 64
    → wants_chinese accept ≡ true
    → localize_auth_error accept (login_text (locked n)) ≡ chinese (zh_locked (itoa n))
unfolding localize_auth_error login_text has_prefix
locked_text accept n h zh =
    let parts = attempts_fields (itoa n ++ codes " seconds") in
    let tail = locked_fields n h in rw (zh, parts, tail) refl

-- For a browser that asks for Chinese, each problem of a rule is told by the Chinese text of that problem,
-- in order, whatever the invalid domain is; and the refusal of a locked client tells the seconds that it has
-- to wait.
pub localized_lem :
    (accept : Text) (ps : List Problem) (seconds : ℕ)
    → seconds < 2 ^ 64
    → wants_chinese accept ≡ true
    → (localize_rule_problems accept (map problem_text ps) ≡ all_meant ps)
      × (localize_auth_error accept (login_text (locked seconds))
          ≡ chinese (zh_locked (itoa seconds)))
unfolding localize_rule_problems
localized_lem accept ps seconds h zh = (rw zh (rule_texts ps), locked_text accept seconds h zh)
