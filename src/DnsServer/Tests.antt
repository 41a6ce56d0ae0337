-- ===== src/DnsServer/Tests.antt =====
-- The DNS server at concrete inputs.
use kaven_dns.Config.{defaults}
use kaven_dns.DnsServer.Client.{resolve_client_ip, Subnet, subnet, client_ip}
use kaven_dns.DnsServer.Query.{handle, Request, Times}
use kaven_dns.DnsServer.Restart.{run, restart_call, shutdown_call, IsConsistent, run-IsConsistent}
use kaven_dns.DnsServer.Sockets.{restart, start, Server, Os, Binding, up, new}
use kaven_dns.Go.{is_loopback, parse_ip}
use kaven_dns.Persist.{absent}
use kaven_dns.Prelude.{
  none, some, [], ◌∷◌, true, false, inr, refl, pos, arith, ◌≡◌, Text, ◌==◌, if◌then◌else◌, codes,
  Text-discrete,
}
use kaven_dns.Resolver.World.{World, failed}
use kaven_dns.Rules.{Store}
use kaven_dns.Cache
use kaven_dns.History

program : Unit {0}
unfolding run restart start resolve_client_ip kaven_dns.Go.split_host_port kaven_dns.Go.parse_ip
    kaven_dns.Go.is_loopback kaven_dns.Go.ip_text kaven_dns.Go.itoa handle Text-discrete
    kaven_dns.Resolver.resolve kaven_dns.Cache.new kaven_dns.Rules.find defaults
    kaven_dns.History.new kaven_dns.History.record_entry
program = tt

abbrev free : Binding
free = record { resolved = true; udp_bound = true; tcp_bound = true }

-- Another process has the port for TCP.
abbrev taken : Binding
taken = record { resolved = true; udp_bound = true; tcp_bound = false }

abbrev none_open : Os
none_open = record { opened = []; next = 3 }

abbrev two_open : Os
two_open = record { opened = 2 ∷ 1 ∷ []; next = 3 }

abbrev local : Text
local = codes "127.0.0.1"

abbrev serving : Server
serving = record { udp = some 1; tcp = some 2; status = up local (pos 53) }

serving-IsConsistent : IsConsistent serving two_open
serving-IsConsistent = record {
  all_held = refl;
  both = λ same. absurd (omega (arith, same));
  listens = inr refl;
}

-- The half that was bound is closed, and the old address is bound again.
rollback_test : restart taken free local (pos 54) (serving, two_open) ≡ (
  (
    record { udp = some 4; tcp = some 5; status = up local (pos 53) },
    record { opened = 5 ∷ 4 ∷ []; next = 6 },
  ),
  false,
)
unfolding program
rollback_test = refl

run-IsConsistent_example :
    IsConsistent
      (run
        (restart_call taken taken local (pos 54) ∷ shutdown_call ∷ [])
        (start free local (pos 53) (new, none_open)).0).0
      (run
        (restart_call taken taken local (pos 54) ∷ shutdown_call ∷ [])
        (start free local (pos 53) (new, none_open)).0).1
run-IsConsistent_example =
    run-IsConsistent free local (pos 53) none_open
      (restart_call taken taken local (pos 54) ∷ shutdown_call ∷ []) refl

-- The network 203.0.113.0/24.
abbrev named : Subnet
named = record {
  family = 1;
  source_netmask = 24;
  source_scope = 0;
  address = some (0 ∷ 0 ∷ 0 ∷ 0 ∷ 0 ∷ 0 ∷ 0 ∷ 0 ∷ 0 ∷ 0 ∷ 255 ∷ 255 ∷ 203 ∷ 0 ∷ 113 ∷ 0 ∷ []);
}

forwarded_test :
    (resolve_client_ip (some (subnet named ∷ [])) (some (codes "127.0.0.1:4000"))
      ≡ codes "203.0.113.0/24")
    × (resolve_client_ip (some (subnet named ∷ [])) (some (codes "10.0.0.9:4000"))
        ≡ codes "10.0.0.9")
unfolding program client_ip kaven_dns.DnsServer.Client.option_text
    kaven_dns.DnsServer.Client.subnet_text
forwarded_test = (refl, refl)

abbrev world : World
world = record {
  fqdn = λ t. t;
  type_name = λ n. if n == 1 then codes "A" else [];
  exchange = λ level transport address name query_type. failed;
  arrival = λ level rs. rs;
  clock = λ level. record { on_get = 10; on_hit = 11; on_set = 12 };
}

abbrev no_rules : Store
no_rules = record { rules = []; path = []; disk = record { file = none; temporary = absent } }

abbrev times : Times
times = record { started = 100; finished = 105; recorded = 106; trimmed = 107 }

abbrev request : Request
request = record {
  questions = record { name = codes "Example.com."; qtype = 1 } ∷ [];
  edns = none;
  remote = some (codes "10.0.0.9:4000");
  write_error = none;
}
