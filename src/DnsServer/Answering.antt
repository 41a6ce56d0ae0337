-- ===== src/DnsServer/Answering.antt =====
-- What becomes of a query: the response, the entry in the history, and the cache.
use kaven_dns.Cache.Invariant.{IsValid}
use kaven_dns.Config.{Config}
use kaven_dns.Dns.{rcode_server_failure, rcode_format_error}
use kaven_dns.DnsServer.Client.{resolve_client_ip}
use kaven_dns.DnsServer.Query.{
  Response, handle_questions, Handled, type_name, bare, response_for, blank_entry, answer, Times,
  Question, with_write_error, handle, finished_entry, described, Request,
}
use kaven_dns.Prelude.{
  none, some, [], ◌∷◌, true, false, inl, inr, refl, arith, ℕ, ◌≡◌, List, Text, Option, ◌^◌, ◌-◌,
  ◌%◌, ◌+◌, codes, ap, ◌⊎◌, ◌∙◌, is_empty, Bool-cases,
}
use kaven_dns.Resolver.{Resolved, resolve}
use kaven_dns.Resolver.Levels.{resolve-EndsValid}
use kaven_dns.Resolver.World.{World}
use kaven_dns.Rules.{Store, normalize_domain}
use kaven_dns.Cache
use kaven_dns.History

-- The response to a question, by what the resolution gives: its code and its records, or a server
-- failure (code 2) without any.
abbrev pub IsReply : Option Resolved → Response → Type 0
IsReply none s =
    (s.rcode ≡ 2) × (s.recursion_available ≡ true) × (s.answer ≡ []) × (s.ns ≡ []) × (s.extra ≡ [])
IsReply (some r) s =
    (s.rcode ≡ r.rcode)
    × (s.recursion_available ≡ true)
    × (s.answer ≡ r.answers)
    × (s.ns ≡ r.authorities)
    × (s.extra ≡ r.additionals)

-- Where the answer is from.
abbrev pub IsOrigin : Option Resolved → History.Entry → Type 0
IsOrigin none e = (e.source ≡ codes "forward") × (e.rule ≡ []) × (e.upstream ≡ [])
IsOrigin (some r) e = (e.source ≡ r.source) × (e.rule ≡ r.rule_label) × (e.upstream ≡ r.upstream)

-- The error that is logged: `error`, that of the resolution, where there is one, or else that of the
-- writing of the response.
abbrev pub IsError : Text → Option Resolved → Option Text → Text → Type 0
IsError error (some r) none t = t ≡ []
IsError error (some r) (some why) t = t ≡ why
IsError error none none t = t ≡ error
IsError error none (some why) t =
    ((is_empty error ≡ true) × (t ≡ why)) ⊎ ((is_empty error ≡ false) × (t ≡ error))

-- The entry is about the question, names the client, has the code of the response, and tells when the
-- request came, how long it took, where the answer is from and what went wrong.
pub record IsAbout (w : World) (error : Text) (req : Request) (at : Times) (q : Question)
    (r : Option Resolved) (s : Response) (e : History.Entry) : Type 0 where
  pub domain : e.domain ≡ normalize_domain q.name
  pub type : e.type ≡ type_name w q.qtype
  pub client : e.client ≡ resolve_client_ip req.edns req.remote
  pub rcode : e.rcode ≡ s.rcode
  pub time : e.time ≡ at.started
  pub latency : e.latency_ms ≡ at.finished - at.started
  pub origin : IsOrigin r e
  pub problem : IsError error r req.write_error e.error

-- The same entry, but for the error.
record IsSame (e e' : History.Entry) : Type 0 where
  domain : e'.domain ≡ e.domain
  type : e'.type ≡ e.type
  client : e'.client ≡ e.client
  rcode : e'.rcode ≡ e.rcode
  time : e'.time ≡ e.time
  source : e'.source ≡ e.source
  rule : e'.rule ≡ e.rule
  upstream : e'.upstream ≡ e.upstream

error-IsSame : (e : History.Entry) (t : Text) → IsSame e (record e { error = t })
error-IsSame e t = record {
  domain = refl;
  type = refl;
  client = refl;
  rcode = refl;
  time = refl;
  source = refl;
  rule = refl;
  upstream = refl;
}

with_write_error-IsSame : (t : Option Text) (e : History.Entry) → IsSame e (with_write_error t e)
unfolding with_write_error
with_write_error-IsSame none e = error-IsSame e e.error
with_write_error-IsSame (some t) e = elim (Bool-cases (is_empty e.error)) [
  | inl h ↦ rw h (error-IsSame e t)
  | inr h ↦ rw h (error-IsSame e e.error)
]

with_write_error-cases :
    (t : Text) (e : History.Entry)
    → ((is_empty e.error ≡ true) × ((with_write_error (some t) e).error ≡ t))
      ⊎ ((is_empty e.error ≡ false) × ((with_write_error (some t) e).error ≡ e.error))
unfolding with_write_error
with_write_error-cases t e = elim (Bool-cases (is_empty e.error)) [
  | inl h ↦ inl (h, rw h refl)
  | inr h ↦ inr (h, rw h refl)
]

timed-IsSame :
    (e e' : History.Entry) (n : ℕ) → IsSame e e' → IsSame e (record e' { latency_ms = n })
timed-IsSame e e' n s = record {
  domain = s.domain;
  type = s.type;
  client = s.client;
  rcode = s.rcode;
  time = s.time;
  source = s.source;
  rule = s.rule;
  upstream = s.upstream;
}

-- An entry as it is before the resolution.
record IsBlank (e : History.Entry) : Type 0 where
  source : e.source ≡ codes "forward"
  rule : e.rule ≡ []
  upstream : e.upstream ≡ []
  error : e.error ≡ []

described-IsError :
    (w : World) (error : Text) (r : Option Resolved) (t : Option Text) (e : History.Entry)
    → e.error ≡ []
    → IsError error r t (with_write_error t (described w error r e)).error
unfolding described with_write_error
described-IsError w error none none e h = refl
described-IsError w error none (some t) e h =
    with_write_error-cases t (record e { rcode = rcode_server_failure; error = error })
described-IsError w error (some r) none e h = h
described-IsError w error (some r) (some t) e h = rw h refl

described-IsOrigin :
    (w : World) (error : Text) (r : Option Resolved) (e e' : History.Entry)
    → IsBlank e
    → IsSame (described w error r e) e'
    → IsOrigin r e'
unfolding described
described-IsOrigin w error none e e' b s =
    (s.source ∙ b.source, s.rule ∙ b.rule, s.upstream ∙ b.upstream)
described-IsOrigin w error (some r) e e' b s = (s.source, s.rule, s.upstream)

described_keeps :
    (w : World) (error : Text) (r : Option Resolved) (e : History.Entry)
    → ((described w error r e).domain ≡ e.domain)
      × ((described w error r e).type ≡ e.type)
      × ((described w error r e).client ≡ e.client)
      × ((described w error r e).time ≡ e.time)
      × ((described w error r e).rcode ≡ (response_for r).rcode)
unfolding described response_for
described_keeps w error none e = (refl, refl, refl, refl, refl)
described_keeps w error (some r) e = (refl, refl, refl, refl, refl)

finished_entry-IsAbout :
    (w : World) (error : Text) (req : Request) (at : Times) (q : Question) (r : Option Resolved)
    → IsAbout w error req at q r (response_for r) (finished_entry w error req at q r)
unfolding finished_entry blank_entry
finished_entry-IsAbout w error req at q r =
    let e = blank_entry req at.started in
    let named = record e { domain = normalize_domain q.name; type = type_name w q.qtype } in
    let blank : IsBlank named = record {
      source = refl;
      rule = refl;
      upstream = refl;
      error = refl;
    } in
    let (domain, type, client, time, rcode) = described_keeps w error r named in
    let d = described w error r named in
    let s =
      timed-IsSame d (with_write_error req.write_error d) (at.finished - at.started)
        (with_write_error-IsSame req.write_error d) in
    record {
      domain = s.domain ∙ domain;
      type = s.type ∙ type;
      client = s.client ∙ client;
      rcode = s.rcode ∙ rcode;
      time = s.time ∙ time;
      latency = refl;
      origin = described-IsOrigin w error r named _ blank s;
      problem = described-IsError w error r req.write_error named refl;
    }

response_for-IsReply : (r : Option Resolved) → IsReply r (response_for r)
unfolding response_for
response_for-IsReply none = (refl, refl, refl, refl, refl)
response_for-IsReply (some r) = (refl, refl, refl, refl, refl)

record_entry-sequence :
    (e : History.Entry) (now now' : ℕ) (h : History.Store)
    → (History.record_entry e now now' h).0.sequence ≡ (h.sequence + 1) % 2 ^ 64
unfolding kaven_dns.History.record_entry
record_entry-sequence e now now' h = ground arith

-- A request without a question, or with a question for no name.
abbrev pub IsMalformed : List Question → Type 0
IsMalformed [] = Unit
IsMalformed (q ∷ _) = is_empty q.name ≡ true

-- What `handle` does with a request that has a question.
pub record IsAnswered (w : World) (cfg : Config) (rules : Store) (error : Text) (at : Times)
    (req : Request) (qs : List Question) (c : Cache.Cache) (h : History.Store) (result : Handled)
    : Type 0 where
  pub q : Question
  pub rest : List Question
  pub asked : qs ≡ q ∷ rest
  pub named : is_empty q.name ≡ false
  pub after : Cache.Cache
  pub r : Option Resolved
  pub resolved : resolve w cfg rules (normalize_domain q.name) q.qtype c ≡ some (after, r)
  pub valid : IsValid after
  pub response : Response
  pub reply : IsReply r response
  pub entry : History.Entry
  pub about : IsAbout w error req at q r response entry
  pub history : History.Store
  pub recorded : history ≡ (History.record_entry entry at.recorded at.trimmed h).0
  pub counted : history.sequence ≡ (h.sequence + 1) % 2 ^ 64
  pub outcome : result ≡ some ((after, history), response)

handle_questions-cases :
    (w : World) (cfg : Config) (rules : Store) (error : Text) (at : Times) (req : Request)
    (qs : List Question) (c : Cache.Cache) (h : History.Store)
    → IsValid c
    → (IsMalformed qs
        × (handle_questions w cfg rules error at req qs c h
            ≡ some ((c, h), bare rcode_format_error)))
      ⊎ IsAnswered w cfg rules error at req qs c h
          (handle_questions w cfg rules error at req qs c h)
unfolding handle_questions
handle_questions-cases w cfg rules error at req [] c h v = inl (tt, refl)
handle_questions-cases w cfg rules error at req (q ∷ qs) c h v =
    elim (Bool-cases (is_empty q.name)) [
      | inl e ↦ inl (e, rw e refl)
      | inr e ↦
          let (c', r, done, valid) =
            resolve-EndsValid w cfg rules (normalize_domain q.name) q.qtype c v in
          inr (record {
            q = q;
            rest = qs;
            asked = refl;
            named = e;
            after = c';
            r = r;
            resolved = done;
            valid = valid;
            response = response_for r;
            reply = response_for-IsReply r;
            entry = finished_entry w error req at q r;
            about = finished_entry-IsAbout w error req at q r;
            history =
                (History.record_entry (finished_entry w error req at q r) at.recorded at.trimmed
                  h).0;
            recorded = refl;
            counted =
                record_entry-sequence (finished_entry w error req at q r) at.recorded at.trimmed h;
            outcome = rw e (ap (answer w error req at q h) done);
          })
    ]

pub handle-IsAnswered :
    (w : World) (cfg : Config) (rules : Store) (error : Text) (at : Times) (req : Request)
    (c : Cache.Cache) (h : History.Store)
    → IsValid c
    → (IsMalformed req.questions
        × (handle w cfg rules error at req (c, h) ≡ some ((c, h), bare rcode_format_error)))
      ⊎ IsAnswered w cfg rules error at req req.questions c h
          (handle w cfg rules error at req (c, h))
unfolding handle
handle-IsAnswered w cfg rules error at req c h v =
    handle_questions-cases w cfg rules error at req req.questions c h v
