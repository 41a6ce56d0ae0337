-- ===== src/DnsServer/Origin.antt =====
-- Whose address is logged.
use kaven_dns.DnsServer.Client.{other_option, subnet, max_bits, Subnet, EdnsOption}
use kaven_dns.Go.{itoa, ip_text, Ip, parse_ip, is_loopback}
use kaven_dns.Prelude.{none, some, ◌∷◌, false, ℕ, ◌≡◌, List, Text, Option, ◌<◌, All, ◌⊎◌, ◌≤◌, ◌++◌}

-- An option that counts: for a query, with an address of one of the two families and a prefix in range.
pub record IsUsable (s : Subnet) : Type 0 where
  pub query_scope : s.source_scope ≡ 0
  pub bits : ℕ
  pub family : max_bits s.family ≡ some bits
  pub positive : 1 ≤ s.source_netmask
  pub bounded : s.source_netmask ≤ bits
  pub ip : Ip
  pub given : s.address ≡ some ip

-- An option of the request that counts.
abbrev pub Counts : EdnsOption → Type 0
Counts (subnet s) = IsUsable s
Counts other_option = ⊥

-- What is logged for an option: its address, with the prefix if that is shorter than the address.
abbrev pub IsText : (s : Subnet) → IsUsable s → Text → Type 0
IsText s u t =
    ((s.source_netmask < u.bits) × (t ≡ ip_text u.ip ++ b'/' ∷ itoa s.source_netmask))
    ⊎ ((s.source_netmask ≡ u.bits) × (t ≡ ip_text u.ip))

-- The first option that counts, and its text.
pub record IsFirst (options : List EdnsOption) (s : Subnet) (t : Text) : Type 0 where
  pub before : List EdnsOption
  pub after : List EdnsOption
  pub parts : options ≡ before ++ subnet s ∷ after
  pub none_before : All (λ o. ¬ Counts o) before
  pub usable : IsUsable s
  pub text : IsText s usable t

-- Why the address of the socket is logged: it is no address, or not on the loopback, or the request has no
-- EDNS record, or none of its options counts.
pub data IsDirect (edns : Option (List EdnsOption)) (socket : Text) : Type 0 where
  unparsed : parse_ip socket ≡ none → IsDirect edns socket
  remote : (ip : Ip) → parse_ip socket ≡ some ip → is_loopback ip ≡ false → IsDirect edns socket
  plain : edns ≡ none → IsDirect edns socket
  unnamed :
      (options : List EdnsOption)
      → edns ≡ some options
      → All (λ o. ¬ Counts o) options
      → IsDirect edns socket
