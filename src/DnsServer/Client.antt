-- ===== src/DnsServer/Client.antt =====
-- The address of the client: that of the socket, or what a local forwarder says in an option EDNS
-- Client Subnet.
use kaven_dns.Go.{split_host_port, parse_ip, is_loopback, ip_text, itoa, Ip}
use kaven_dns.Prelude.{
  ◌++◌, ◌||◌, ltb, ◌==◌, not, if◌then◌else◌, codes, none, some, [], ◌∷◌, ℕ, List, Text, Option,
}

-- `family`, `source_netmask` and `source_scope` are the fields of the option; `address` may be nil.
pub record Subnet : Type 0 where
  pub family : ℕ
  pub source_netmask : ℕ
  pub source_scope : ℕ
  pub address : Option Ip

pub data EdnsOption : Type 0 where
  subnet : Subnet → EdnsOption
  other_option : EdnsOption

-- The text of the remote address, if it is known.
unfoldable pub client_ip : Option Text → Text
client_ip none = codes "unknown"
client_ip (some address) = elim (split_host_port address) [ none ↦ address | some (host, _) ↦ host ]

-- The number of bits of an address of a family.
unfoldable pub max_bits : ℕ → Option ℕ
max_bits family = if family == 1 then some 32 else if family == 2 then some 128 else none

-- The text for an option, if it is one that counts.
unfoldable pub subnet_text : Subnet → Option Text
unfolding max_bits
subnet_text s = if not (s.source_scope == 0) then none else elim (max_bits s.family) [
  | none ↦ none
  | some bits ↦
      if ltb s.source_netmask 1 || ltb bits s.source_netmask then none else elim s.address [
        | none ↦ none
        | some ip ↦ some (
            if ltb s.source_netmask bits
            then ip_text ip ++ b'/' ∷ itoa s.source_netmask
            else ip_text ip)
      ]
]

unfoldable pub option_text : EdnsOption → Option Text
option_text (subnet s) = subnet_text s
option_text other_option = none

-- The loop over the options.
unfoldable pub first_subnet : List EdnsOption → Text → Text
first_subnet [] socket = socket
first_subnet (o ∷ os) socket = elim (option_text o) [ none ↦ first_subnet os socket | some t ↦ t ]

-- `edns` holds the options, if the request has an EDNS record.
unfoldable pub resolve_client_ip : Option (List EdnsOption) → Option Text → Text
unfolding first_subnet
resolve_client_ip edns address =
    let socket = client_ip address in
    elim (parse_ip socket) [
      | none ↦ socket
      | some ip ↦
          if not (is_loopback ip)
          then socket
          else elim edns [ none ↦ socket | some options ↦ first_subnet options socket ]
    ]
