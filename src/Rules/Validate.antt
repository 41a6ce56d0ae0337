-- ===== src/Rules/Validate.antt =====
-- `Validate`. A problem stands for its message.
use kaven_dns.Config.{is_upstream}
use kaven_dns.Go.{to4, trim_space, parse_ip, fields}
use kaven_dns.Prelude.{
  ◌||◌, ◌==◌, ◌&&◌, take, is_empty, ◌++◌, text_eq, not, ltb, length, codes, leb, if◌then◌else◌,
  none, some, [], ◌∷◌, true, false, List, Text, Bool,
}
use kaven_dns.Prelude.Assoc.{mem}
use kaven_dns.Rules.Defs.{Rule}
use kaven_dns.Rules.Domain.{is_domain, normalize_domain}

pub data Problem : Type 0 where
  -- "At least one domain is required"
  no_domain : Problem
  -- "At most 500 domains per rule"
  too_many_domains : Problem
  -- "Invalid domain: " and the domain
  invalid_domain : Text → Problem
  -- "Unsupported record type"
  unsupported_type : Problem
  -- "Unsupported rule mode"
  unsupported_mode : Problem
  -- "TTL must be between 1 and 86400"
  ttl_out_of_range : Problem
  -- "Invalid upstream"
  invalid_upstream : Problem
  -- "A fixed answer is required"
  no_answer : Problem
  -- "A records require IPv4 addresses"
  not_ipv4 : Problem
  -- "AAAA records require IPv6 addresses"
  not_ipv6 : Problem
  -- "CNAME requires one hostname"
  not_hostname : Problem

-- The inner loop over the parts of a line. `seen` holds what `domains` holds.
unfoldable pub collect_parts : List Text → List Text → List Text
collect_parts [] domains = domains
collect_parts (part ∷ parts) domains =
    let d = normalize_domain part in
    collect_parts parts
      (if not (is_empty d) && not (mem d domains) then domains ++ d ∷ [] else domains)

unfoldable pub collect_domains : List Text → List Text → List Text
unfolding collect_parts
collect_domains [] domains = domains
collect_domains (raw ∷ raws) domains = collect_domains raws (collect_parts (fields raw) domains)

abbrev pub domain_ok : Text → Bool
domain_ok d = leb (length d) 253 && is_domain d

-- The first invalid domain is the one reported.
unfoldable pub check_each : List Text → List Problem
check_each [] = []
check_each (d ∷ ds) = if not (domain_ok d) then invalid_domain d ∷ [] else check_each ds

unfoldable pub check_domains : List Text → List Problem
unfolding check_each
check_domains ds =
    if length ds == 0
    then no_domain ∷ []
    else if ltb 500 (length ds)
    then too_many_domains ∷ []
    else check_each ds

abbrev pub require : Bool → Problem → List Problem
require true p = []
require false p = p ∷ []

abbrev pub is_fixed : Rule → Bool
is_fixed r = text_eq r.mode (codes "fixed")

abbrev pub has_type : Rule → Text → Bool
has_type r t = text_eq r.type t

-- `ParseIP(v).To4() != nil`.
abbrev pub is_ipv4 : Text → Bool
is_ipv4 v = elim (parse_ip v) [
  | none ↦ false
  | some ip ↦ elim (to4 ip) [ none ↦ false | some _ ↦ true ]
]

-- `ParseIP(v) != nil && ParseIP(v).To4() == nil`.
abbrev pub is_ipv6 : Text → Bool
is_ipv6 v = elim (parse_ip v) [
  | none ↦ false
  | some ip ↦ elim (to4 ip) [ none ↦ true | some _ ↦ false ]
]

-- The loop over the values of a fixed answer, which the first wrong value ends.
unfoldable pub check_values : Rule → List Text → List Problem
check_values r [] = []
check_values r (v ∷ vs) =
    if has_type r (codes "A") && not (is_ipv4 v)
    then not_ipv4 ∷ []
    else if has_type r (codes "AAAA") && not (is_ipv6 v)
    then not_ipv6 ∷ []
    else check_values r vs

unfoldable pub check_fixed : Rule → List Problem
unfolding check_values
check_fixed r =
    let values = fields r.value in
    require (not (length values == 0)) no_answer
    ++ (check_values r values
        ++ require
            (not (
              has_type r (codes "CNAME")
              && (not (length values == 1) || not (is_domain (normalize_domain r.value)))))
            not_hostname)

unfoldable pub check_rule : Rule → List Problem
unfolding check_domains check_fixed
check_rule r =
    check_domains r.domains
    ++ (require (has_type r (codes "A") || has_type r (codes "AAAA") || has_type r (codes "CNAME"))
          unsupported_type
        ++ (require (is_fixed r || text_eq r.mode (codes "forward")) unsupported_mode
            ++ (require (leb 1 r.ttl && leb r.ttl 86400) ttl_out_of_range
                ++ (require (is_empty r.upstream || is_upstream r.upstream) invalid_upstream
                    ++ (if is_fixed r then check_fixed r else [])))))

-- `TrimSpace`, and at most 200 bytes.
abbrev pub trim_remark : Text → Text
trim_remark s = let t = trim_space s in if ltb 200 (length t) then take 200 t else t

unfoldable pub validate : Rule → Rule × List Problem
unfolding collect_domains check_rule
validate r =
    let r' = record r { domains = collect_domains r.domains [] } in
    (record r' { remark = trim_remark r.remark }, check_rule r')
