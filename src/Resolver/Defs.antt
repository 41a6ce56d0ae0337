-- ===== src/Resolver/Defs.antt =====
-- The functions of the resolver. The configuration and the rules do not change during one resolution.
use kaven_dns.Config.{parse_upstream, Config}
use kaven_dns.Dns.{
  aaaa, type_aaaa, a, type_a, type_opt, cname, type_cname, rcode_success, class_inet, Rr, Body,
}
use kaven_dns.Go.{fields, to4, parse_ip, itoa}
use kaven_dns.Prelude.{
  none, some, [], ◌∷◌, zero, suc, true, false, pos, negsuc, ℕ, List, Text, Bool, Option, is_empty,
  ◌^◌, ◌-◌, ◌+◌, not, ◌==◌, ◌*◌, ◌&&◌, ◌%◌, map, ltb_ℤ, ltb, keep, ◌++◌, ℤ, text_eq, length,
  if◌then◌else◌, codes,
}
use kaven_dns.Prelude.Assoc.{mem}
use kaven_dns.Resolver.World.{
  tcp, udp, replied, failed, failure, Exchange, success, World, Reply, Message,
}
use kaven_dns.Rules.{Store, Match, Rule, find, normalize_domain}
use kaven_dns.Cache

-- A `Result`.
pub record Resolved : Type 0 where
  pub rcode : ℕ
  pub answers : List Rr
  pub authorities : List Rr
  pub additionals : List Rr
  pub source : Text
  pub rule_label : Text
  pub upstream : Text

unfoldable pub label : Option Match → Text
label none = []
label (some m) =
    let count = length m.rule.domains in
    m.pattern
    ++ (if ltb 1 count then codes " (+" ++ itoa (count - 1) ++ codes ")" else [])
    ++ (if is_empty m.rule.remark then [] else codes " (" ++ m.rule.remark ++ codes ")")

-- `strings.Join(texts, ",")`.
unfoldable pub join_comma : List Text → Text
join_comma [] = []
join_comma (t ∷ []) = t
join_comma (t ∷ u ∷ ts) = t ++ b',' ∷ join_comma (u ∷ ts)

unfoldable pub cache_key : Text → ℕ → List Text → Text
unfolding join_comma
cache_key domain query_type upstreams =
    domain ++ b'|' ∷ itoa query_type ++ b'|' ∷ join_comma upstreams

-- The upstreams that a query goes to: those of the configuration, unless a rule names one.
unfoldable pub chosen_upstreams : Option Match → List Text → List Text
chosen_upstreams none upstreams = upstreams
chosen_upstreams (some m) upstreams =
    if text_eq m.rule.mode (codes "forward") && not (is_empty m.rule.upstream)
    then m.rule.upstream ∷ []
    else upstreams

unfoldable pub reply_of : Text → Exchange → Reply
reply_of raw failed = failure
reply_of raw (replied m) = success m raw

-- The body of a goroutine of `forward`: a truncated response is asked for again over TCP.
unfoldable pub ask : World → ℕ → Text → ℕ → Text → Reply
unfolding reply_of
ask w level domain query_type raw = elim (parse_upstream raw) [
  | none ↦ failure
  | some address ↦
      let first = w.exchange level udp address (w.fqdn domain) query_type in
      let again = w.exchange level tcp address (w.fqdn domain) query_type in
      elim first [
        | failed ↦ failure
        | replied m ↦ if m.truncated then reply_of raw again else success m raw
      ]
]

-- The loop of `forward` over the channel: the first reply that is no failure.
unfoldable pub first_reply : List Reply → Option (Message × Text)
first_reply [] = none
first_reply (failure ∷ rs) = first_reply rs
first_reply (success m raw ∷ rs) = some (m, raw)

unfoldable pub forward : World → ℕ → Text → ℕ → List Text → Option (Message × Text)
unfolding ask first_reply
forward w level domain query_type upstreams =
    first_reply (w.arrival level (map (ask w level domain query_type) upstreams))

-- `uint32(n)` for an int.
abbrev pub to_uint32 : ℤ → ℕ
to_uint32 (pos n) = n % 2 ^ 32
to_uint32 (negsuc n) = 2 ^ 32 - 1 - n % 2 ^ 32

-- The loop over the answers that finds the least time to live.
unfoldable pub least_ttl : ℕ → List Rr → ℕ
least_ttl minimum [] = minimum
least_ttl minimum (rr ∷ rs) = least_ttl (if ltb rr.ttl minimum then rr.ttl else minimum) rs

abbrev pub min_ℤ : ℤ → ℤ → ℤ
min_ℤ m n = if ltb_ℤ n m then n else m

abbrev pub max_ℤ : ℤ → ℤ → ℤ
max_ℤ m n = if ltb_ℤ m n then n else m

-- The seconds for which an answer is kept.
unfoldable pub cache_ttl : Config → List Rr → ℤ
unfolding least_ttl
cache_ttl cfg answers =
    max_ℤ cfg.ttl_min (min_ℤ cfg.ttl_max (pos (least_ttl (to_uint32 cfg.ttl_max) answers)))

-- `time.Duration(n) * time.Second`, in nanoseconds. The bounds of the configuration keep it small.
abbrev pub seconds : ℤ → ℤ
seconds (pos n) = pos (n * 1_000_000_000)
seconds (negsuc n) = negsuc (n * 1_000_000_000 + 999_999_999)

abbrev pub is_opt : Rr → Bool
is_opt rr = rr.rrtype == type_opt

unfoldable pub forwarded : Option Match → Message → Text → Resolved
unfolding label
forwarded found m upstream = record {
  rcode = m.rcode;
  answers = m.answer;
  authorities = m.ns;
  additionals = keep (λ rr. not (is_opt rr)) m.extra;
  source = codes "forward";
  rule_label = label found;
  upstream = upstream;
}

unfoldable pub cached : Option Match → Cache.Result → Resolved
unfolding label
cached found hit = record {
  rcode = hit.rcode;
  answers = hit.answers;
  authorities = hit.authorities;
  additionals = hit.additionals;
  source = codes "cache";
  rule_label = label found;
  upstream = [];
}

abbrev pub kept : Resolved → Cache.Result
kept r = record {
  rcode = r.rcode;
  answers = r.answers;
  authorities = r.authorities;
  additionals = r.additionals;
}

abbrev pub is_nil : List Rr → Bool
is_nil [] = true
is_nil (_ ∷ _) = false

-- What a resolution gives back: the cache afterwards, and a result or an error.
-- `none` is a fault of the cache.
abbrev pub Run : Type 0
Run = Option (Cache.Cache × Option Resolved)

-- The end of `resolve` for a response.
unfoldable pub remember : Config → Text → ℕ → Resolved → Cache.Cache → Run
unfolding cache_ttl kaven_dns.Cache.set
remember cfg key now r c =
    if r.rcode == rcode_success && not (is_nil r.answers)
    then elim (Cache.set c key (kept r) (seconds (cache_ttl cfg r.answers)) now) [
      | none ↦ none
      | some c' ↦ some (c', some r)
    ]
    else some (c, some r)

-- `resolve` behind the rules: the cache, and then the upstreams.
unfoldable pub resolve_upstream : World → Config → ℕ → Option Match → Text → ℕ → Cache.Cache → Run
unfolding cache_key chosen_upstreams kaven_dns.Cache.get forward forwarded cached remember
resolve_upstream w cfg level found domain query_type c =
    let upstreams = chosen_upstreams found cfg.upstreams in
    let key = cache_key domain query_type upstreams in
    let at = w.clock level in
    let (c', hit) = Cache.get c key at.on_get at.on_hit in
    elim hit [
      | some hit ↦ some (c', some (cached found hit))
      | none ↦ elim (forward w level domain query_type upstreams) [
        | none ↦ some (c', none)
        | some (m, upstream) ↦ remember cfg key at.on_set (forwarded found m upstream) c'
      ]
    ]

abbrev pub header : Text → ℕ → Rule → Body → Rr
header name rrtype rule body = record {
  name = name;
  rrtype = rrtype;
  class = class_inet;
  ttl = rule.ttl;
  body = body;
}

-- The switch on the type of the rule, for one of its values.
unfoldable pub address_record : Text → Rule → Text → List Rr
unfolding kaven_dns.Go.parse_ip kaven_dns.Go.to4
address_record name rule value =
    if text_eq rule.type (codes "A")
    then elim (parse_ip value) [
      | none ↦ []
      | some ip ↦ elim (to4 ip) [ none ↦ [] | some ip4 ↦ header name type_a rule (a ip4) ∷ [] ]
    ]
    else if text_eq rule.type (codes "AAAA")
    then elim (parse_ip value) [
      | none ↦ []
      | some ip ↦ elim (to4 ip) [ none ↦ header name type_aaaa rule (aaaa ip) ∷ [] | some _ ↦ [] ]
    ]
    else []

unfoldable pub address_records : Text → Rule → List Text → List Rr
unfolding address_record
address_records name rule [] = []
address_records name rule (v ∷ vs) = address_record name rule v ++ address_records name rule vs

unfoldable pub fixed_result : Match → List Rr → Resolved
unfolding label
fixed_result m answers = record {
  rcode = rcode_success;
  answers = answers;
  authorities = [];
  additionals = [];
  source = codes "fixed";
  rule_label = label (some m);
  upstream = [];
}

-- The resolution of the target of a CNAME, if the chain may grow: from a target and the targets visited.
abbrev pub Chase : Type 0
Chase = Option (Text → List Text → Cache.Cache → Run)

-- The answers of the target, if it was resolved without an error.
unfoldable pub extra_answers : Option Resolved → List Rr
extra_answers none = []
extra_answers (some extra) = if extra.rcode == rcode_success then extra.answers else []

unfoldable pub chased : Match → Rr → Run → Run
unfolding fixed_result extra_answers
chased m first none = none
chased m first (some (c, extra)) = some (c, some (fixed_result m (first ∷ extra_answers extra)))

unfoldable pub cname_record : World → Match → Text → Rr
cname_record w m domain =
    header (w.fqdn domain) type_cname m.rule (cname (w.fqdn (normalize_domain m.rule.value)))

-- `fixed` for a rule of type CNAME.
unfoldable pub chain : Chase → World → Match → Text → ℕ → List Text → Cache.Cache → Run
unfolding fixed_result chased cname_record
chain none w m domain query_type visited c =
    some (c, some (fixed_result m (cname_record w m domain ∷ [])))
chain (some go) w m domain query_type visited c =
    let target = normalize_domain m.rule.value in
    if not (query_type == type_cname) && not (mem target visited)
    then chased m (cname_record w m domain) (go target (target ∷ visited) c)
    else some (c, some (fixed_result m (cname_record w m domain ∷ [])))

unfoldable pub fixed : Chase → World → Match → Text → ℕ → List Text → Cache.Cache → Run
unfolding chain fixed_result address_records
fixed chase w m domain query_type visited c =
    let records = address_records (w.fqdn domain) m.rule (fields m.rule.value) in
    let chained = chain chase w m domain query_type visited c in
    if text_eq m.rule.type (codes "CNAME") then chained else some (c, some (fixed_result m records))

abbrev pub is_fixed_match : Match → Bool
is_fixed_match m = text_eq m.rule.mode (codes "fixed")

unfoldable pub resolve_with :
    Chase → World → Config → Store → ℕ → Text → ℕ → List Text → Cache.Cache → Run
unfolding fixed resolve_upstream kaven_dns.Rules.find
resolve_with chase w cfg rules level domain query_type visited c =
    let found = find rules domain (w.type_name query_type) in
    let upstream = resolve_upstream w cfg level found domain query_type c in
    elim found [
      | none ↦ upstream
      | some m ↦ if is_fixed_match m then fixed chase w m domain query_type visited c else upstream
    ]

-- `resolve`, where `level` is `maxCNAMEDepth - depth`: at the greatest depth no target is resolved.
unfoldable pub resolve_from : ℕ → World → Config → Store → Text → ℕ → List Text → Cache.Cache → Run
unfolding resolve_with
resolve_from zero w cfg rules domain query_type visited c =
    resolve_with none w cfg rules 0 domain query_type visited c
resolve_from (suc level) w cfg rules domain query_type visited c =
    resolve_with (some (λ target seen c'. resolve_from level w cfg rules target query_type seen c'))
      w cfg rules (suc level) domain query_type visited c

abbrev pub max_cname_depth : ℕ
max_cname_depth = 4

unfoldable pub resolve : World → Config → Store → Text → ℕ → Cache.Cache → Run
unfolding resolve_from
resolve w cfg rules raw_domain query_type c =
    resolve_from max_cname_depth w cfg rules (normalize_domain raw_domain) query_type [] c
