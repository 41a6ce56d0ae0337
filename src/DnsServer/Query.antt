-- ===== src/DnsServer/Query.antt =====
-- The handling of a query.
use kaven_dns.Config.{Config}
use kaven_dns.Dns.{other, cname, aaaa, a, rcode_server_failure, rcode_format_error, Rr}
use kaven_dns.DnsServer.Client.{resolve_client_ip, EdnsOption}
use kaven_dns.Go.{ip_text, itoa, join, trim_suffix}
use kaven_dns.Prelude.{
  length, ltb, take, map, is_empty, codes, ◌-◌, ◌++◌, if◌then◌else◌, none, some, [], ◌∷◌, true, ℕ,
  List, Text, Bool, Option,
}
use kaven_dns.Resolver.{Resolved, resolve}
use kaven_dns.Resolver.World.{World}
use kaven_dns.Rules.{Store, normalize_domain}
use kaven_dns.Cache
use kaven_dns.History

pub record Question : Type 0 where
  pub name : Text
  pub qtype : ℕ

-- A request, with the address that it came from, and whether the response can be written: the text of
-- the error, if not.
pub record Request : Type 0 where
  pub questions : List Question
  pub edns : Option (List EdnsOption)
  pub remote : Option Text
  pub write_error : Option Text

-- What is set in the response, which the library begins as a reply to the request.
pub record Response : Type 0 where
  pub rcode : ℕ
  pub recursion_available : Bool
  pub answer : List Rr
  pub ns : List Rr
  pub extra : List Rr

-- The readings of the clock in milliseconds, at the start and when the response is written, and the
-- two of `Record`.
pub record Times : Type 0 where
  pub started : ℕ
  pub finished : ℕ
  pub recorded : ℕ
  pub trimmed : ℕ

unfoldable pub type_name : World → ℕ → Text
type_name w value =
    let name = w.type_name value in if is_empty name then codes "TYPE" ++ itoa value else name

unfoldable pub record_text : World → Rr → Text
unfolding type_name ip_text
record_text w rr = elim rr.body [
  | a ip ↦ ip_text ip
  | aaaa ip ↦ ip_text ip
  | cname target ↦ trim_suffix target (b'.' ∷ [])
  | other t ↦ type_name w rr.rrtype
]

-- `… n records`, where the first character is three bytes.
unfoldable pub count_text : ℕ → Text
count_text n = 226 ∷ 128 ∷ 166 ∷ b' ' ∷ (itoa n ++ codes " records")

unfoldable pub summarize : World → List Rr → ℕ → Text
unfolding record_text count_text join
summarize w records limit = join (codes ", ") (
    map (record_text w) (take limit records)
    ++ (if ltb limit (length records) then count_text (length records) ∷ [] else []))

-- The entry before the question is looked at.
unfoldable pub blank_entry : Request → ℕ → History.Entry
unfolding resolve_client_ip
blank_entry req started = record {
  time = started;
  sequence = 0;
  client = resolve_client_ip req.edns req.remote;
  domain = [];
  type = [];
  source = codes "forward";
  rcode = 0;
  latency_ms = 0;
  answers = [];
  rule = [];
  upstream = [];
  error = [];
}

abbrev pub bare : ℕ → Response
bare rcode = record { rcode = rcode; recursion_available = true; answer = []; ns = []; extra = [] }

unfoldable pub response_for : Option Resolved → Response
response_for none = bare rcode_server_failure
response_for (some r) = record {
  rcode = r.rcode;
  recursion_available = true;
  answer = r.answers;
  ns = r.authorities;
  extra = r.additionals;
}

-- `error` is the text of the error of `Resolve`, where it has one.
unfoldable pub described : World → Text → Option Resolved → History.Entry → History.Entry
unfolding summarize
described w error none e = record e { rcode = rcode_server_failure; error = error }
described w error (some r) e = record e {
  source = r.source;
  rcode = r.rcode;
  rule = r.rule_label;
  upstream = r.upstream;
  answers = summarize w r.answers 3;
}

-- A response that cannot be written is an error of the entry, if it has none.
unfoldable pub with_write_error : Option Text → History.Entry → History.Entry
with_write_error none e = e
with_write_error (some t) e = if is_empty e.error then record e { error = t } else e

-- The entry that is recorded for a question.
unfoldable pub finished_entry :
    World → Text → Request → Times → Question → Option Resolved → History.Entry
unfolding blank_entry described with_write_error type_name
finished_entry w error req at q result =
    let e = blank_entry req at.started in
    let named = record e { domain = normalize_domain q.name; type = type_name w q.qtype } in
    record (with_write_error req.write_error (described w error result named)) {
      latency_ms = at.finished - at.started;
    }

-- The cache and the history afterwards, and the response. `none` is a fault of the cache.
abbrev pub Handled : Type 0
Handled = Option ((Cache.Cache × History.Store) × Response)

unfoldable pub answer :
    World
    → Text
    → Request
    → Times
    → Question
    → History.Store
    → Option (Cache.Cache × Option Resolved)
    → Handled
unfolding finished_entry response_for
answer w error req at q h none = none
answer w error req at q h (some (c, result)) = some (
  (c, (History.record_entry (finished_entry w error req at q result) at.recorded at.trimmed h).0),
  response_for result,
)

-- `handle`, by the questions of the request.
unfoldable pub handle_questions :
    World
    → Config
    → Store
    → Text
    → Times
    → Request
    → List Question
    → Cache.Cache
    → History.Store
    → Handled
unfolding answer
handle_questions w cfg rules error at req [] c h = some ((c, h), bare rcode_format_error)
handle_questions w cfg rules error at req (q ∷ _) c h =
    if is_empty q.name
    then some ((c, h), bare rcode_format_error)
    else answer w error req at q h (resolve w cfg rules (normalize_domain q.name) q.qtype c)

unfoldable pub handle :
    World → Config → Store → Text → Times → Request → Cache.Cache × History.Store → Handled
unfolding handle_questions
handle w cfg rules error at req (c, h) = handle_questions w cfg rules error at req req.questions c h
