-- ===== src/History/Sampled.antt =====
-- What the analytics count.
use kaven_dns.History.Analytics.{
  with_averages, bucket_count, bucket_ms, analytics, tally, sample, see_client, is_active, place,
  into_bucket, empty_buckets, empty_tally, failed, domain_of, Bucket, RankedDomain, RankedClient,
  Tally,
}
use kaven_dns.History.Defs.{Entry, Store}
use kaven_dns.Prelude.{
  none, some, [], ◌∷◌, zero, suc, true, false, inl, inr, refl, arith, ℕ, ◌≡◌, List, Text, Bool, ◌/◌,
  ◌∙◌, ◌-◌, ◌*◌, Text-discrete, Bool-cases, ltb, ◌&&◌, text_eq, ◌⊎◌, ◌<◌, ◌+◌, length, leb,
  if◌then◌else◌,
}
use kaven_dns.Prelude.Assoc.{lookup, insert, lookup-insert}

-- The queries of the hour from `start` on.
abbrev pub is_sampled : ℕ → Entry → Bool
is_sampled start e = leb start e.time && ltb e.time (start + 3_600_000)

unfoldable pub sum : {A : Type 0} → (A → ℕ) → List A → ℕ
sum f [] = 0
sum f (x ∷ xs) = f x + sum f xs

abbrev pub one_if : Bool → ℕ
one_if b = if b then 1 else 0

abbrev pub failed_if : ℕ → Entry → ℕ
failed_if start e = if is_sampled start e then failed e else 0

abbrev pub about : ℕ → Text → Entry → ℕ
about start d e = if is_sampled start e then one_if (text_eq e.domain d) else 0

abbrev pub count_of : Text → List (Text × RankedDomain) → ℕ
count_of d m = elim (lookup d m) [ none ↦ 0 | some r ↦ r.count ]

-- What a tally has more than another.
pub record Counts (start n k : ℕ) (d : Text) (m : ℕ) (t t' : Tally) : Type 0 where
  pub sampled : t'.sampled ≡ t.sampled + n
  pub total : sum (λ b. b.total) t'.buckets ≡ sum (λ b. b.total) t.buckets + n
  pub failures : sum (λ b. b.failures) t'.buckets ≡ sum (λ b. b.failures) t.buckets + k
  pub buckets : length t'.buckets ≡ length t.buckets
  pub domain : count_of d t'.domains ≡ count_of d t.domains + m

into_bucket-Counts :
    (i : ℕ) (e : Entry) (bs : List Bucket)
    → i < length bs
    → (sum (λ b. b.total) (into_bucket i e bs) ≡ sum (λ b. b.total) bs + 1)
      × (sum (λ b. b.failures) (into_bucket i e bs) ≡ sum (λ b. b.failures) bs + failed e)
      × (length (into_bucket i e bs) ≡ length bs)
unfolding into_bucket sum
into_bucket-Counts i e [] h = absurd (omega (arith, h))
into_bucket-Counts zero e (b ∷ bs) h = (omega arith, omega arith, refl)
into_bucket-Counts (suc i) e (b ∷ bs) h =
    let (total, failures, same) = into_bucket-Counts i e bs (omega (arith, h)) in
    (omega (arith, total), omega (arith, failures), omega (arith, same))

place-cases :
    (start : ℕ) (e : Entry)
    → ((place start e ≡ none) × (is_sampled start e ≡ false))
      ⊎ ((i : ℕ) × (place start e ≡ some i) × (i < 12) × (is_sampled start e ≡ true))
unfolding place
place-cases start e =
    elim (Bool-cases (leb start e.time && ltb ((e.time - start) / bucket_ms) bucket_count)) [
      | inr h ↦ inl (rw (h, place) refl, ground (arith, h))
      | inl h ↦
          inr
            ((e.time - start) / bucket_ms, rw (h, place) refl, ground (arith, h), ground (arith, h))
    ]

count_of-insert :
    (d : Text) (e : Entry) (m : List (Text × RankedDomain))
    → count_of d (insert e.domain (domain_of e (lookup e.domain m)) m)
      ≡ count_of d m + one_if (text_eq e.domain d)
count_of-insert d e m = elim (Text-discrete e.domain d) [
  | yes same ↦ ground (arith, same, lookup-insert e.domain d (domain_of e (lookup e.domain m)) m)
  | no other ↦ ground (arith, other, lookup-insert e.domain d (domain_of e (lookup e.domain m)) m)
]

sample-Counts :
    (start : ℕ) (d : Text) (e : Entry) (t : Tally)
    → length t.buckets ≡ 12
    → Counts start
        (one_if (is_sampled start e))
        (failed_if start e)
        d
        (about start d e)
        t
        (sample start e t)
unfolding sample
sample-Counts start d e t h = elim (place-cases start e) [
  | inl (p, s) ↦
      rw (p, s, sample)
        (record {
          sampled = omega arith;
          total = omega arith;
          failures = omega arith;
          buckets = refl;
          domain = omega arith;
        })
  | inr (i, p, small, s) ↦
      let (total, failures, same) = into_bucket-Counts i e t.buckets (omega (arith, small, h)) in
      rw (p, s, sample)
        (record {
          sampled = refl;
          total = total;
          failures = failures;
          buckets = same;
          domain = count_of-insert d e t.domains;
        })
]

see_client-Counts :
    (start active : ℕ) (d : Text) (e : Entry) (t : Tally)
    → Counts start 0 0 d 0 t (see_client active e t)
unfolding see_client
see_client-Counts start active d e t = elim (Bool-cases (is_active active e)) [
  | inl h ↦
      rw (h, see_client)
        (record {
          sampled = omega arith;
          total = omega arith;
          failures = omega arith;
          buckets = refl;
          domain = omega arith;
        })
  | inr h ↦
      rw (h, see_client)
        (record {
          sampled = omega arith;
          total = omega arith;
          failures = omega arith;
          buckets = refl;
          domain = omega arith;
        })
]

Counts-Counts :
    (start n k : ℕ) (d : Text) (m n' k' m' : ℕ) (t u w : Tally)
    → Counts start n k d m t u
    → Counts start n' k' d m' u w
    → Counts start (n + n') (k + k') d (m + m') t w
Counts-Counts start n k d m n' k' m' t u w a b = record {
  sampled = omega (arith, a.sampled, b.sampled);
  total = omega (arith, a.total, b.total);
  failures = omega (arith, a.failures, b.failures);
  buckets = b.buckets ∙ a.buckets;
  domain = omega (arith, a.domain, b.domain);
}

Counts-none :
    (start n k : ℕ) (d : Text) (m : ℕ) (t u w : Tally)
    → Counts start n k d m t u
    → Counts start 0 0 d 0 u w
    → Counts start n k d m t w
Counts-none start n k d m t u w a b = record {
  sampled = omega (arith, a.sampled, b.sampled);
  total = omega (arith, a.total, b.total);
  failures = omega (arith, a.failures, b.failures);
  buckets = b.buckets ∙ a.buckets;
  domain = omega (arith, a.domain, b.domain);
}

tally-Counts :
    (start active : ℕ) (d : Text) (es : List Entry) (t : Tally)
    → length t.buckets ≡ 12
    → Counts start
        (sum (λ e. one_if (is_sampled start e)) es)
        (sum (failed_if start) es)
        d
        (sum (about start d) es)
        t
        (tally start active es t)
unfolding tally sum
tally-Counts start active d [] t h = record {
  sampled = omega arith;
  total = omega arith;
  failures = omega arith;
  buckets = refl;
  domain = omega arith;
}
tally-Counts start active d (e ∷ es) t h =
    let t₁ = sample start e t in
    let t₂ = see_client active e t₁ in
    let a = sample-Counts start d e t h in
    let b = see_client-Counts start active d e t₁ in
    let c = tally-Counts start active d es t₂ (b.buckets ∙ a.buckets ∙ h) in
    let n = one_if (is_sampled start e) in
    let k = failed_if start e in
    let m = about start d e in
    Counts-Counts start n k d m (sum (λ x. one_if (is_sampled start x)) es)
      (sum (failed_if start) es) (sum (about start d) es) t t₂ (tally start active es t₂)
      (Counts-none start n k d m t t₁ t₂ a b) c

sum-zero :
    (f : Bucket → ℕ) (left start i : ℕ)
    → ((time : ℕ) → f (record { time = time; total = 0; failures = 0; latency = 0 }) ≡ 0)
    → (sum f (empty_buckets left start i) ≡ 0) × (length (empty_buckets left start i) ≡ left)
unfolding sum empty_buckets
sum-zero f zero start i h = (refl, refl)
sum-zero f (suc left) start i h =
    let (none_yet, count) = sum-zero f left start (i + 1) h in
    (omega (arith, h (start + i * bucket_ms), none_yet), omega (arith, count))

with_averages-sum :
    (f : Bucket → ℕ) (bs : List Bucket)
    → (sum (λ (b : Bucket × (ℕ × ℕ)). f b.0) (with_averages bs) ≡ sum f bs)
      × (length (with_averages bs) ≡ length bs)
unfolding sum with_averages
with_averages-sum f [] = (refl, refl)
with_averages-sum f (b ∷ bs) =
    let (total, count) = with_averages-sum f bs in (omega (arith, total), omega (arith, count))

-- The sampled queries are those of the last hour. Over the twelve buckets the totals add up to their number, and
-- the failures to the number of those that failed; and for each domain the loop counts its sampled
-- queries.
pub analytics_lem :
    (rank_domains : List RankedDomain → List RankedDomain)
    (rank_clients : List RankedClient → List RankedClient) (now : ℕ) (d : Text) (s : Store)
    → let start = now - 3_600_000 in
      let report = analytics rank_domains rank_clients now s in
      (report.sampled_queries ≡ sum (λ e. one_if (is_sampled start e)) s.entries)
      × (length report.buckets ≡ 12)
      × (sum (λ b. b.0.total) report.buckets ≡ report.sampled_queries)
      × (sum (λ b. b.0.failures) report.buckets ≡ sum (failed_if start) s.entries)
      × (count_of d (tally start (now - 300_000) s.entries (empty_tally start)).domains
          ≡ sum (about start d) s.entries)
unfolding analytics
analytics_lem rank_domains rank_clients now d s =
    let start = now - 3_600_000 in
    let (no_total, twelve) = sum-zero (λ b. b.total) 12 start 0 (λ time. refl) in
    let (no_failures, _) = sum-zero (λ b. b.failures) 12 start 0 (λ time. refl) in
    let c = tally-Counts start (now - 300_000) d s.entries (empty_tally start) twelve in
    let t = tally start (now - 300_000) s.entries (empty_tally start) in
    let (totals, count) = with_averages-sum (λ b. b.total) t.buckets in
    let (failures, _) = with_averages-sum (λ b. b.failures) t.buckets in
    (
      c.sampled ∙ omega arith,
      count ∙ c.buckets ∙ twelve,
      omega (arith, totals, c.total, c.sampled, no_total),
      omega (arith, failures, c.failures, no_failures),
      c.domain ∙ omega arith,
    )
