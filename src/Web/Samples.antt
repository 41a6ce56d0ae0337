-- ===== src/Web/Samples.antt =====
-- Values for the tests of the console and of the program.
use kaven_dns.DnsServer.Sockets.{Os, Binding, up}
use kaven_dns.Persist.{removed, absent, Outcome}
use kaven_dns.Prelude.{none, some, [], ◌∷◌, true, false, pos, Text, codes}
use kaven_dns.Resolver.World.{failed}
use kaven_dns.Rules.{Rule}
use kaven_dns.SystemInfo.Defs.{new_monitor}
use kaven_dns.SystemInfo.Platforms.{read_other}
use kaven_dns.Update.Defs.{unanswered}
use kaven_dns.Web.Listener.{Listener}
use kaven_dns.Web.State.{System, Env, Headers}
use kaven_dns.Cache
use kaven_dns.Config
use kaven_dns.History
use kaven_dns.Rules

abbrev pub local : Text
local = codes "127.0.0.1"

abbrev pub fine : Outcome
fine = record {
  made_directory = true;
  encoded = true;
  wrote = true;
  renamed = true;
  removal = removed;
  renamed_again = true;
}

abbrev pub free : Binding
free = record { resolved = true; udp_bound = true; tcp_bound = true }

abbrev pub taken : Binding
taken = record { resolved = true; udp_bound = true; tcp_bound = false }

abbrev pub settings : Config.Config
settings = Config.sanitize (record Config.defaults { password_hash = codes "00" })

abbrev pub listening : Listener
listening = record { listener = some 7; address = local; port = pos 8080 }

abbrev pub seven : Os
seven = record { opened = 7 ∷ []; next = 8 }

abbrev pub state : System
state = record {
  config = record { value = settings; disk = record { file = none; temporary = absent } };
  rules = Rules.new [] (record { file = none; temporary = absent });
  history = History.new (pos 100) (pos 1) 0;
  cache = Cache.new (pos 100);
  auth = record {
    sessions = (codes "t", 5000) ∷ [];
    fails = [];
    path = [];
    dirty = false;
    disk = record { file = none; temporary = absent };
  };
  logs = record { capacity = 200; sequence = 0; console = []; operations = [] };
  dns = (
    record { udp = some 1; tcp = some 2; status = up (codes "0.0.0.0") (pos 53) },
    record { opened = 2 ∷ 1 ∷ []; next = 3 },
  );
  web = (listening, seven);
  monitor = new_monitor (read_other 0 (codes "linux")) 0;
  streams = 0;
}

-- The new ports are taken, and the old ones can be had again.
abbrev pub env : Env
env = record {
  checked_at = 10;
  extended_at = 10;
  now = 10;
  later = 20;
  outcome = λ n. fine;
  session_outcome = fine;
  fresh = λ n. codes "r";
  token = some (codes "t2");
  salt = some (1 ∷ []);
  crypto = record { scrypt = λ p s. some (1 ∷ []); sha256 = λ t. 0 ∷ [] };
  quote = λ t. t;
  dns_new = taken;
  dns_old = free;
  dns_undo = free;
  dns_undo_old = free;
  web_new = true;
  web_old = true;
  probe = record { unresolved = none; udp_error = none; tcp_error = none };
  world = record {
    fqdn = λ t. t;
    type_name = λ n. codes "A";
    exchange = λ level transport address name query_type. failed;
    arrival = λ level rs. rs;
    clock = λ level. record { on_get = 10; on_hit = 11; on_set = 12 };
  };
  type_number = λ t. some 1;
  error_text = codes "error";
  moment = record {
    now = 10;
    machine = record { hostname = local; arch = []; runtime_version = []; cores = 1 };
    reading = read_other 4096 (codes "linux");
    rank_domains = λ xs. xs;
    rank_clients = λ xs. xs;
  };
  flushes = true;
  version = codes "2.0.1";
  commit = [];
  escape = λ t. t;
  update_client = λ r. unanswered (codes "offline");
}

abbrev pub signed : Headers
signed = record {
  authorization = codes "Bearer t";
  x_auth_token = [];
  remote_addr = codes "10.0.0.9:4000";
}

abbrev pub stranger : Headers
stranger = record signed { authorization = codes "Bearer u" }

abbrev pub rule : Rule
rule = record {
  id = [];
  domains = codes "example.com" ∷ [];
  domain = [];
  type = codes "A";
  mode = codes "forward";
  value = [];
  upstream = [];
  ttl = 60;
  enabled = true;
  remark = [];
  created_at = 0;
  updated_at = 0;
}
