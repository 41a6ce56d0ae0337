-- ===== src/Dns.antt =====
-- Resource records, as far as the program reads or builds them. The library of DNS messages
-- (github.com/miekg/dns) is not part of the repository: this is the shape of its records.
use kaven_dns.Go.{Ip}
use kaven_dns.Prelude.{ℕ, Text}

pub data Body : Type 0 where
  a : Ip → Body
  aaaa : Ip → Body
  cname : Text → Body
  -- another type of record, by its text
  other : Text → Body

-- `ttl` is a uint32.
pub record Rr : Type 0 where
  pub name : Text
  pub rrtype : ℕ
  pub class : ℕ
  pub ttl : ℕ
  pub body : Body

-- The numbers of the DNS protocol.
abbrev pub type_a : ℕ
type_a = 1

abbrev pub type_cname : ℕ
type_cname = 5

abbrev pub type_aaaa : ℕ
type_aaaa = 28

abbrev pub type_opt : ℕ
type_opt = 41

abbrev pub class_inet : ℕ
class_inet = 1

abbrev pub rcode_success : ℕ
rcode_success = 0

abbrev pub rcode_format_error : ℕ
rcode_format_error = 1

abbrev pub rcode_server_failure : ℕ
rcode_server_failure = 2

abbrev pub rcode_name_error : ℕ
rcode_name_error = 3
