-- ===== src/History/Tests.antt =====
-- The history at concrete inputs.
use kaven_dns.History.Analytics.{analytics, tally, empty_tally}
use kaven_dns.History.Defs.{
  matches, drop_old, record_entry, search, cutoff, trim, no_stats, any_entry, list, Store, Filter,
  Entry,
}
use kaven_dns.History.Runs.{after_calls-IsValid, after_calls, record_call, set_limits_call, IsValid}
use kaven_dns.History.Sampled.{analytics_lem, is_sampled, failed_if, about, one_if, count_of, sum}
use kaven_dns.History.Search.{search_lem}
use kaven_dns.Prelude.{[], ◌∷◌, refl, pos, arith, ◌≡◌, Text-discrete, length, codes}
use kaven_dns.Prelude.Assoc.{lookup, insert}

abbrev answered : Entry
answered = record {
  time = 1_000;
  sequence = 1;
  client = codes "10.0.0.2";
  domain = codes "a.test";
  type = codes "A";
  source = codes "fixed";
  rcode = 0;
  latency_ms = 3;
  answers = [];
  rule = codes "a.test";
  upstream = [];
  error = [];
}

abbrev failed_one : Entry
failed_one = record answered {
  time = 200_000_000;
  sequence = 2;
  rcode = 2;
  source = codes "forward";
}

abbrev third : Entry
third = record answered { time = 200_000_001; sequence = 3 }

abbrev kept_three : Store
kept_three = record {
  max_entries = 2;
  retention = pos 1;
  entries = answered ∷ failed_one ∷ third ∷ [];
  sequence = 3;
  stats = no_stats 5;
}

abbrev empty : Store
empty = record {
  max_entries = 2;
  retention = pos 1;
  entries = [];
  sequence = 0;
  stats = no_stats 5;
}

abbrev failures : Filter
failures = record (any_entry (pos 5)) { status = codes "fail" }

program : Unit {0}
unfolding search trim matches cutoff drop_old no_stats record_entry after_calls list Text-discrete
    kaven_dns.Go.to_lower kaven_dns.Go.trim_space kaven_dns.Go.contains
program = tt

search_lem_example : search kept_three failures ≡ failed_one ∷ []
unfolding program
search_lem_example = search_lem kept_three failures

after_calls-IsValid_example :
    IsValid (after_calls (record_call answered 5 6 ∷ set_limits_call (pos 1) (pos 0) 7 ∷ []) empty)
after_calls-IsValid_example =
    after_calls-IsValid (record_call answered 5 6 ∷ set_limits_call (pos 1) (pos 0) 7 ∷ []) empty
      (omega arith) (omega arith, omega arith, omega arith)

-- At 200,000,100 ms two of the three queries are of the last hour; one of them failed.
sampled_test :
    ((analytics (λ ds. ds) (λ cs. cs) 200_000_100 kept_three).sampled_queries ≡ 2)
    × (sum (λ b. b.0.failures) (analytics (λ ds. ds) (λ cs. cs) 200_000_100 kept_three).buckets ≡ 1)
unfolding analytics sum lookup insert Text-discrete
sampled_test = (refl, refl)

analytics_lem_example :
    ((analytics (λ ds. ds) (λ cs. cs) 200_000_100 kept_three).sampled_queries
      ≡ sum (λ e. one_if (is_sampled 196_400_100 e)) kept_three.entries)
    × (length (analytics (λ ds. ds) (λ cs. cs) 200_000_100 kept_three).buckets ≡ 12)
    × (sum (λ b. b.0.total) (analytics (λ ds. ds) (λ cs. cs) 200_000_100 kept_three).buckets
        ≡ (analytics (λ ds. ds) (λ cs. cs) 200_000_100 kept_three).sampled_queries)
    × (sum (λ b. b.0.failures) (analytics (λ ds. ds) (λ cs. cs) 200_000_100 kept_three).buckets
        ≡ sum (failed_if 196_400_100) kept_three.entries)
    × (count_of
          (codes "a.test")
          (tally 196_400_100 199_700_100 kept_three.entries (empty_tally 196_400_100)).domains
        ≡ sum (about 196_400_100 (codes "a.test")) kept_three.entries)
analytics_lem_example = analytics_lem (λ ds. ds) (λ cs. cs) 200_000_100 (codes "a.test") kept_three
