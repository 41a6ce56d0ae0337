-- ===== src/History/Analytics.antt =====
-- `Analytics`: the queries of the last hour by five minutes and by domain, and the clients of the last
-- five minutes. An average is a fraction. The clock stands at an hour after the epoch at least.
use kaven_dns.History.Defs.{Store, Entry}
use kaven_dns.Prelude.{
  none, some, [], ◌∷◌, zero, suc, ℕ, List, Text, Bool, Option, codes, text_eq, is_empty, not,
  length, ◌/◌, ◌&&◌, take, ◌==◌, ◌-◌, ◌*◌, ltb, leb, ◌+◌, map, if◌then◌else◌,
}
use kaven_dns.Prelude.Assoc.{insert, lookup}

pub record Bucket : Type 0 where
  pub time : ℕ
  pub total : ℕ
  pub failures : ℕ
  pub latency : ℕ

pub record RankedDomain : Type 0 where
  pub domain : Text
  pub count : ℕ
  pub failures : ℕ

pub record RankedClient : Type 0 where
  pub client : Text
  pub count : ℕ
  pub failures : ℕ
  pub last_seen : ℕ

pub record Overview : Type 0 where
  -- each bucket with its average
  pub buckets : List (Bucket × (ℕ × ℕ))
  pub top_domains : List RankedDomain
  pub active_clients : List RankedClient
  pub top_domain_count : ℕ
  pub active_client_count : ℕ
  pub sampled_queries : ℕ
  pub retained_queries : ℕ

abbrev pub bucket_ms : ℕ
bucket_ms = 300_000

abbrev pub bucket_count : ℕ
bucket_count = 12

-- The buckets from the one at place `i`, `left` of them.
unfoldable pub empty_buckets : ℕ → ℕ → ℕ → List Bucket
empty_buckets zero start i = []
empty_buckets (suc left) start i =
    record { time = start + i * bucket_ms; total = 0; failures = 0; latency = 0 }
    ∷ empty_buckets left start (i + 1)

abbrev pub failed : Entry → ℕ
failed e = if e.rcode == 0 then 0 else 1

abbrev pub add_to_bucket : Entry → Bucket → Bucket
add_to_bucket e b = record b {
  total = b.total + 1;
  failures = b.failures + failed e;
  latency = b.latency + e.latency_ms;
}

-- The bucket at a place.
unfoldable pub into_bucket : ℕ → Entry → List Bucket → List Bucket
into_bucket i e [] = []
into_bucket zero e (b ∷ bs) = add_to_bucket e b ∷ bs
into_bucket (suc i) e (b ∷ bs) = b ∷ into_bucket i e bs

abbrev pub domain_of : Entry → Option RankedDomain → RankedDomain
domain_of e none = record { domain = e.domain; count = 1; failures = failed e }
domain_of e (some d) = record d { count = d.count + 1; failures = d.failures + failed e }

abbrev pub client_of : Entry → Option RankedClient → RankedClient
client_of e none = record { client = e.client; count = 1; failures = failed e; last_seen = e.time }
client_of e (some c) = record c {
  count = c.count + 1;
  failures = c.failures + failed e;
  last_seen = if ltb c.last_seen e.time then e.time else c.last_seen;
}

-- What the loop has gathered.
pub record Tally : Type 0 where
  pub buckets : List Bucket
  pub sampled : ℕ
  pub domains : List (Text × RankedDomain)
  pub clients : List (Text × RankedClient)

-- The place of an entry among the buckets, if it has one.
unfoldable pub place : ℕ → Entry → Option ℕ
place start e =
    let i = (e.time - start) / bucket_ms in
    if leb start e.time && ltb i bucket_count then some i else none

unfoldable pub sample : ℕ → Entry → Tally → Tally
unfolding place into_bucket lookup insert
sample start e t = elim (place start e) [
  | none ↦ t
  | some i ↦ record t {
    buckets = into_bucket i e t.buckets;
    sampled = t.sampled + 1;
    domains = insert e.domain (domain_of e (lookup e.domain t.domains)) t.domains;
  }
]

abbrev pub is_active : ℕ → Entry → Bool
is_active active e =
    leb active e.time && not (is_empty e.client) && not (text_eq e.client (codes "web-ui"))

unfoldable pub see_client : ℕ → Entry → Tally → Tally
unfolding lookup insert
see_client active e t =
    if is_active active e
    then record t { clients = insert e.client (client_of e (lookup e.client t.clients)) t.clients }
    else t

-- The loop over the entries.
unfoldable pub tally : ℕ → ℕ → List Entry → Tally → Tally
unfolding sample see_client
tally start active [] t = t
tally start active (e ∷ es) t = tally start active es (see_client active e (sample start e t))

abbrev pub average : Bucket → ℕ × ℕ
average b = if ltb 0 b.total then (b.latency, b.total) else (0, 1)

-- The loop over the buckets.
unfoldable pub with_averages : List Bucket → List (Bucket × (ℕ × ℕ))
with_averages [] = []
with_averages (b ∷ bs) = (b, average b) ∷ with_averages bs

abbrev pub values {ℓ} : {V : Type ℓ} → List (Text × V) → List V
values m = map (λ x. x.1) m

abbrev pub empty_tally : ℕ → Tally
empty_tally start = record {
  buckets = empty_buckets bucket_count start 0;
  sampled = 0;
  domains = [];
  clients = [];
}

-- The order of a map and `sort.Slice`, which leaves the order of equal elements open, are one function
-- for each of the two rankings.
unfoldable pub analytics :
    (List RankedDomain → List RankedDomain)
    → (List RankedClient → List RankedClient)
    → ℕ
    → Store
    → Overview
unfolding tally empty_buckets with_averages
analytics rank_domains rank_clients now s =
    let start = now - 3_600_000 in
    let t = tally start (now - 300_000) s.entries (empty_tally start) in
    let domains = rank_domains (values t.domains) in
    let clients = rank_clients (values t.clients) in
    record {
      buckets = with_averages t.buckets;
      top_domains = take 500 domains;
      active_clients = take 500 clients;
      top_domain_count = length domains;
      active_client_count = length clients;
      sampled_queries = t.sampled;
      retained_queries = length s.entries;
    }
