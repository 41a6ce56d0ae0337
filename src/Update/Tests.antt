-- ===== src/Update/Tests.antt =====
-- Versions at concrete inputs.
use kaven_dns.Prelude.{
  some, [], ◌∷◌, true, refl, arith, ◌≡◌, List, Text, ◌++◌, Text-discrete, codes,
}
use kaven_dns.Update.Defs.{
  tree_url, answered, parse_stable, checked, Reply, stable_version, check, TagsRequest,
}
use kaven_dns.Update.Latest.{rank, check-IsLatest, IsLatest}

program : Unit {0}
unfolding check parse_stable rank Text-discrete kaven_dns.Go.natural kaven_dns.Go.trim_space
    kaven_dns.Go.split kaven_dns.Go.trim_prefix kaven_dns.Go.itoa stable_version
program = tt

stable_version_test : stable_version (codes " v2.0.1-rc1\n") ≡ codes "2.0.1"
unfolding program
stable_version_test = refl

abbrev tags : List Text
tags = codes "v1.10.0" ∷ codes "nightly" ∷ codes "1.9.9" ∷ []

abbrev client : TagsRequest → Reply
client request = answered 200 (some tags)

check_test :
    check (λ t. t) client (codes "v1.2.3")
    ≡ checked (record {
      current_version = codes "1.2.3";
      latest_version = codes "1.10.0";
      update_available = true;
      url = tree_url ++ codes "v1.10.0";
    })
unfolding program
check_test = refl

check-IsLatest_example :
    IsLatest (λ t. t) (codes "1.2.3") tags (check (λ t. t) client (codes "v1.2.3"))
unfolding program
check-IsLatest_example =
    check-IsLatest (λ t. t) client (codes "v1.2.3") (codes "1.2.3") (1, 2, 3) 200 tags refl refl
      (omega arith) (omega arith) refl
