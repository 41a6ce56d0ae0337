-- ===== src/Resolver/Tests.antt =====
-- The resolver at concrete inputs.
use kaven_dns.Cache.Invariant.{new-IsValid}
use kaven_dns.Config.{Config, defaults}
use kaven_dns.Dns.{other, Rr}
use kaven_dns.Persist.{absent}
use kaven_dns.Prelude.{
  none, some, [], ◌∷◌, true, false, refl, pos, arith, ◌≡◌, Text, ◌*◌, ◌+◌, Text-discrete, ◌⊎◌, ◌==◌,
  if◌then◌else◌, codes, All,
}
use kaven_dns.Prelude.Assoc.{lookup}
use kaven_dns.Resolver.Defs.{
  Resolved, address_record, chosen_upstreams, cache_key, first_reply, address_records, cache_ttl,
  ask, resolve_upstream, resolve, forward,
}
use kaven_dns.Resolver.Forward.{forward_lem, Occurs}
use kaven_dns.Resolver.Hits.{IsRepeated, IsForwarded, resolve_upstream_twice}
use kaven_dns.Resolver.Levels.{resolve-EndsValid, EndsValid}
use kaven_dns.Resolver.World.{success, replied, failure, World, Message}
use kaven_dns.Rules.{Store, Rule}
use kaven_dns.Cache

abbrev one_record : Rr
one_record = record { name = codes "a."; rrtype = 1; class = 1; ttl = 300; body = other [] }

abbrev response : Message
response = record { rcode = 0; answer = one_record ∷ []; ns = []; extra = []; truncated = false }

-- Every upstream answers, and the replies arrive in order.
abbrev world : World
world = record {
  fqdn = λ t. t;
  type_name = λ n. if n == 1 then codes "A" else codes "CNAME";
  exchange = λ level transport address name query_type. replied response;
  arrival = λ level rs. rs;
  clock = λ level. record { on_get = 10; on_hit = 11; on_set = 12 };
}

abbrev settings : Config
settings = record defaults {
  upstreams = codes "1.1.1.1:53" ∷ [];
  ttl_min = pos 60;
  ttl_max = pos 86400;
}

-- A CNAME rule that points at its own domain.
abbrev looping : Rule
looping = record {
  id = codes "r1";
  domains = codes "a" ∷ [];
  domain = [];
  type = codes "CNAME";
  mode = codes "fixed";
  value = codes "a";
  upstream = [];
  ttl = 60;
  enabled = true;
  remark = [];
  created_at = 0;
  updated_at = 0;
}

abbrev rules : Store
rules = record {
  rules = looping ∷ [];
  path = [];
  disk = record { file = none; temporary = absent };
}

program : Unit {0}
unfolding kaven_dns.Go.split_host_port kaven_dns.Go.atoi resolve_upstream forward ask first_reply
    cache_key chosen_upstreams cache_ttl address_records address_record defaults lookup
    Text-discrete kaven_dns.Cache.get kaven_dns.Cache.new kaven_dns.Go.parse_ip kaven_dns.Go.to4
    kaven_dns.Config.parse_upstream
program = tt

resolve-EndsValid_example :
    EndsValid (resolve world settings rules (codes "a") 1 (Cache.new (pos 2)))
resolve-EndsValid_example =
    resolve-EndsValid world settings rules (codes "a") 1 (Cache.new (pos 2)) (new-IsValid (pos 2))

forward_lem_example :
    ((forward world 4 (codes "b") 1 settings.upstreams ≡ none)
      × All (λ raw. ask world 4 (codes "b") 1 raw ≡ failure) settings.upstreams)
    ⊎ ((m : Message) × (raw name : Text) × (forward world 4 (codes "b") 1 settings.upstreams
          ≡ some (m, name))
        × Occurs raw settings.upstreams
        × (ask world 4 (codes "b") 1 raw ≡ success m name))
forward_lem_example =
    forward_lem world 4 (codes "b") 1 settings.upstreams (λ rs r. (λ h. h, λ h. h))

resolve_upstream_twice_example :
    (c' c'' : Cache.Cache) × (r r' : Resolved) × (resolve_upstream world settings 4 none
        (codes "b")
        1
        (Cache.new (pos 2))
      ≡ some (c', some r))
    × IsForwarded none response (codes "1.1.1.1:53") r
    × (resolve_upstream world settings 4 none (codes "b") 1 c' ≡ some (c'', some r'))
    × IsRepeated none response (12 + 300 * 1_000_000_000) 11 r'
unfolding program
resolve_upstream_twice_example =
    resolve_upstream_twice world world settings 4 4 none (codes "b") 1 (Cache.new (pos 2)) response
      (codes "1.1.1.1:53") 300 (new-IsValid (pos 2)) refl refl refl refl (omega arith) (omega arith)
      (omega arith)
