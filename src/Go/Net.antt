-- ===== src/Go/Net.antt =====
-- Package net: addresses as `ParseIP` reads them, and host-port pairs.
use kaven_dns.Prelude.{
  ℕ, zero, suc, ◌+◌, ◌-◌, ◌*◌, ◌/◌, ◌%◌, ◌≡◌, refl, Bool, true, false, not, ◌&&◌, ◌||◌, Option,
  none, some, List, [], ◌∷◌, ◌++◌, Text, codes, text_eq, Text-discrete, is_empty, ltb, leb, ◌==◌,
  if◌then◌else◌, length, take, drop,
}

-- An address is its sixteen bytes.
abbrev pub Ip : Type 0
Ip = List ℕ

-- The bytes of `::ffff:a.b.c.d`, by which Go stores the IPv4 address a.b.c.d.
abbrev pub v4_prefix : List ℕ
v4_prefix = 0 ∷ 0 ∷ 0 ∷ 0 ∷ 0 ∷ 0 ∷ 0 ∷ 0 ∷ 0 ∷ 0 ∷ 255 ∷ 255 ∷ []

-- `parseIPv4Fields`: the fields so far, the value of the current field and its number of digits.
unfoldable pub ipv4_fields : List ℕ → ℕ → ℕ → Text → Option (List ℕ)
ipv4_fields done val digits [] =
    if length done == 3 && not (digits == 0) then some (done ++ val ∷ []) else none
ipv4_fields done val digits (c ∷ s) =
    let val' = val * 10 + (c - b'0') in
    let digit = ipv4_fields done val' (digits + 1) s in
    let next = ipv4_fields (done ++ val ∷ []) 0 0 s in
    if leb b'0' c && leb c b'9'
    then (if (digits == 1 && val == 0) || ltb 255 val' then none else digit)
    else if c == b'.'
    then (if digits == 0 || length done == 3 then none else next)
    else none

abbrev has_byte : ℕ → Text → Bool
has_byte c [] = false
has_byte c (d ∷ s) = d == c || has_byte c s

abbrev is_prefix_byte : ℕ → Text → Bool
is_prefix_byte c [] = false
is_prefix_byte c (d ∷ _) = d == c

abbrev is_none : Option ℕ → Bool
is_none none = true
is_none (some _) = false

unfoldable pub parse_ipv4 : Text → Option Ip
unfolding ipv4_fields
parse_ipv4 s = elim (ipv4_fields [] 0 0 s) [ none ↦ none | some bytes ↦ some (v4_prefix ++ bytes) ]

unfoldable pub hex_value : ℕ → Option ℕ
hex_value c =
    if leb b'0' c && leb c b'9'
    then some (c - b'0')
    else if leb b'a' c && leb c b'f'
    then some (c - b'a' + 10)
    else if leb b'A' c && leb c b'F'
    then some (c - b'A' + 10)
    else none

-- A group of hexadecimal digits: how many, its value, and what follows.
unfoldable pub hex_group : ℕ → ℕ → Text → ℕ × ℕ × Text
unfolding hex_value
hex_group n acc [] = (n, acc, [])
hex_group n acc (c ∷ s) = elim (hex_value c) [
  | none ↦ (n, acc, c ∷ s)
  | some v ↦ hex_group (n + 1) (acc * 16 + v) s
]

abbrev zeros : ℕ → List ℕ
zeros zero = []
zeros (suc n) = 0 ∷ zeros n

-- The end of `parseIPv6`: the bytes read, and the place of the `::` among them.
unfoldable pub expand : List ℕ → Option ℕ → Option Ip
expand bytes none = if length bytes == 16 then some bytes else none
expand bytes (some at) =
    if leb 16 (length bytes)
    then none
    else some (take at bytes ++ zeros (16 - length bytes) ++ drop at bytes)

-- What a round of the loop of `parseIPv6` leads to: the end, or another round with the bytes read,
-- the place of `::` and the text left.
pub data Next : Type 0 where
  stop : Option Ip → Next
  more : List ℕ → Option ℕ → Text → Next

-- Behind a group: the end, one colon, or the `::` that may occur once.
unfoldable pub after_group : List ℕ → Option ℕ → Text → Next
unfolding expand
after_group bytes ellipsis [] = stop (expand bytes ellipsis)
after_group bytes ellipsis (c ∷ []) = stop none
after_group bytes ellipsis (c ∷ d ∷ t) =
    if not (c == b':')
    then stop none
    else if not (d == b':')
    then more bytes ellipsis (d ∷ t)
    else elim ellipsis [
      | some _ ↦ stop none
      | none ↦
          if is_empty t
          then stop (expand bytes (some (length bytes)))
          else more bytes (some (length bytes)) t
    ]

-- A trailing IPv4 address in the place of the last two groups.
unfoldable pub ipv4_tail : List ℕ → Option ℕ → Text → Option Ip
unfolding ipv4_fields expand
ipv4_tail bytes ellipsis s =
    if is_none ellipsis && not (length bytes == 12) || ltb 12 (length bytes)
    then none
    else elim (ipv4_fields [] 0 0 s) [
      | none ↦ none
      | some fields ↦ expand (bytes ++ fields) ellipsis
    ]

unfoldable pub round : List ℕ → Option ℕ → Text → Next
unfolding hex_group after_group ipv4_tail
round bytes ellipsis s =
    let (n, acc, rest) = hex_group 0 0 s in
    if leb 16 (length bytes) || n == 0 || ltb 4 n
    then stop none
    else if is_prefix_byte b'.' rest
    then stop (ipv4_tail bytes ellipsis s)
    else after_group (bytes ++ acc / 256 ∷ acc % 256 ∷ []) ellipsis rest

-- Each round reads two bytes or ends, and the ninth round ends: the fuel is 9.
unfoldable pub ipv6_groups : ℕ → List ℕ → Option ℕ → Text → Option Ip
unfolding round
ipv6_groups zero bytes ellipsis s = none
ipv6_groups (suc fuel) bytes ellipsis s = elim (round bytes ellipsis s) [
  | stop result ↦ result
  | more bytes' ellipsis' s' ↦ ipv6_groups fuel bytes' ellipsis' s'
]

unfoldable pub parse_ipv6 : Text → Option Ip
unfolding ipv6_groups expand
parse_ipv6 [] = none
parse_ipv6 (c ∷ []) = none
parse_ipv6 (c ∷ d ∷ s) =
    if c == b':' && d == b':'
    then (if is_empty s then expand [] (some 0) else ipv6_groups 9 [] (some 0) s)
    else ipv6_groups 9 [] none (c ∷ d ∷ s)

-- The kind of an address is decided by the first dot or colon. An address with a zone is refused.
unfoldable pub parse_by : Text → Text → Option Ip
unfolding parse_ipv4 parse_ipv6
parse_by s [] = none
parse_by s (c ∷ t) =
    if c == b'.'
    then parse_ipv4 s
    else if c == b':'
    then (if has_byte b'%' s then none else parse_ipv6 s)
    else if c == b'%'
    then none
    else parse_by s t

-- `ParseIP(s)`, where `nil` is `none`.
unfoldable pub parse_ip : Text → Option Ip
unfolding parse_by
parse_ip s = parse_by s s

-- `ip.To4()`, where `nil` is `none`.
unfoldable pub to4 : Ip → Option (List ℕ)
unfolding Text-discrete
to4 ip = if length ip == 16 && text_eq (take 12 ip) v4_prefix then some (drop 12 ip) else none

-- The text in front of the last colon and the text behind it.
unfoldable pub cut_last_colon : Text → Option (Text × Text)
cut_last_colon [] = none
cut_last_colon (c ∷ s) = elim (cut_last_colon s) [
  | none ↦ if c == b':' then some ([], s) else none
  | some (host, port) ↦ some (c ∷ host, port)
]

abbrev drop_last_byte : Text → Text
drop_last_byte [] = []
drop_last_byte (c ∷ []) = []
drop_last_byte (c ∷ d ∷ s) = c ∷ drop_last_byte (d ∷ s)

abbrev ends_in : ℕ → Text → Bool
ends_in c [] = false
ends_in c (d ∷ []) = d == c
ends_in c (d ∷ e ∷ s) = ends_in c (e ∷ s)

-- The pair in front of and behind the last colon, once the brackets are checked: a host in brackets
-- ends in its only closing bracket, just before the last colon.
unfoldable pub check_host : Text → Text → Option (Text × Text)
check_host [] port = if has_byte b'[' port || has_byte b']' port then none else some ([], port)
check_host (c ∷ host) port =
    if has_byte b'[' host || has_byte b'[' port || has_byte b']' port
    then none
    else if c == b'['
    then (if ends_in b']' host && not (has_byte b']' (drop_last_byte host))
        then some (drop_last_byte host, port)
        else none)
    else if has_byte b':' (c ∷ host) || has_byte b']' (c ∷ host)
    then none
    else some (c ∷ host, port)

-- `SplitHostPort(s)`, where an error is `none`.
unfoldable pub split_host_port : Text → Option (Text × Text)
unfolding cut_last_colon check_host
split_host_port s = elim (cut_last_colon s) [
  | none ↦ none
  | some (host, port) ↦ check_host host port
]

-- `JoinHostPort(host, port)`.
unfoldable pub join_host_port : Text → Text → Text
join_host_port host port =
    if has_byte b':' host then b'[' ∷ (host ++ b']' ∷ b':' ∷ port) else host ++ b':' ∷ port

loopback_test : parse_ip (codes "127.0.0.1") ≡ some (v4_prefix ++ 127 ∷ 0 ∷ 0 ∷ 1 ∷ [])
unfolding parse_ip
loopback_test = refl

leading_zero_test : parse_ip (codes "127.0.0.01") ≡ none
unfolding parse_ip
leading_zero_test = refl

ipv6_test :
    parse_ip (codes "2001:db8::1:F")
    ≡ some (32 ∷ 1 ∷ 13 ∷ 184 ∷ 0 ∷ 0 ∷ 0 ∷ 0 ∷ 0 ∷ 0 ∷ 0 ∷ 0 ∷ 0 ∷ 1 ∷ 0 ∷ 15 ∷ [])
unfolding parse_ip
ipv6_test = refl

mapped_test : parse_ip (codes "::ffff:1.2.3.4") ≡ some (v4_prefix ++ 1 ∷ 2 ∷ 3 ∷ 4 ∷ [])
unfolding parse_ip
mapped_test = refl

split_host_port_test : split_host_port (codes "[::1]:53") ≡ some (codes "::1", codes "53")
unfolding split_host_port
split_host_port_test = refl

unbracketed_test : split_host_port (codes "::1:53") ≡ none
unfolding split_host_port
unbracketed_test = refl
