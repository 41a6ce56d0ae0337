-- ===== src/Go/IpText.antt =====
-- Package net: `IP.String` and `IP.IsLoopback`; package encoding/hex.
use kaven_dns.Go.Net.{Ip, to4, hex_value, v4_prefix}
use kaven_dns.Go.Strconv.{itoa}
use kaven_dns.Prelude.{
  none, some, [], ◌∷◌, suc, false, refl, ℕ, ◌≡◌, List, Text, Bool, Option, ◌+◌, ◌-◌, ◌*◌, ◌/◌, ◌%◌,
  ◌==◌, ◌&&◌, not, ltb, leb, if◌then◌else◌, ◌++◌, map, take, drop, length, codes, text_eq,
  Text-discrete,
}

-- The byte of a hexadecimal digit, in lower case.
unfoldable pub hex_digit : ℕ → ℕ
hex_digit d = if ltb d 10 then d + b'0' else d - 10 + b'a'

-- A group of 16 bits without leading zeros.
unfoldable pub hex_group_text : ℕ → Text
unfolding hex_digit
hex_group_text n =
    let d₀ = hex_digit (n % 16) in
    let d₁ = hex_digit (n / 16 % 16) in
    let d₂ = hex_digit (n / 256 % 16) in
    let d₃ = hex_digit (n / 4096) in
    if ltb n 16
    then d₀ ∷ []
    else if ltb n 256
    then d₁ ∷ d₀ ∷ []
    else if ltb n 4096
    then d₂ ∷ d₁ ∷ d₀ ∷ []
    else d₃ ∷ d₂ ∷ d₁ ∷ d₀ ∷ []

unfoldable pub join : Text → List Text → Text
join separator [] = []
join separator (t ∷ []) = t
join separator (t ∷ u ∷ ts) = t ++ (separator ++ join separator (u ∷ ts))

unfoldable pub groups_of : List ℕ → List ℕ
groups_of [] = []
groups_of (high ∷ []) = []
groups_of (high ∷ low ∷ bytes) = (high * 256 + low) ∷ groups_of bytes

abbrev zeros_ahead : List ℕ → ℕ
zeros_ahead [] = 0
zeros_ahead (g ∷ gs) = if g == 0 then suc (zeros_ahead gs) else 0

-- The first longest run of two zero groups or more: where it starts, and its length.
unfoldable pub longest_run : ℕ → ℕ × ℕ → List ℕ → ℕ × ℕ
longest_run at best [] = best
longest_run at (start, size) (g ∷ gs) =
    let n = zeros_ahead (g ∷ gs) in
    longest_run (at + 1) (if leb 2 n && ltb size n then (at, n) else (start, size)) gs

unfoldable pub ipv6_text : List ℕ → Text
unfolding longest_run join hex_group_text
ipv6_text groups =
    let (start, size) = longest_run 0 (0, 0) groups in
    let colon = b':' ∷ [] in
    if size == 0
    then join colon (map hex_group_text groups)
    else join colon (map hex_group_text (take start groups))
      ++ (codes "::" ++ join colon (map hex_group_text (drop (start + size) groups)))

unfoldable pub hex_encode : List ℕ → Text
unfolding hex_digit
hex_encode [] = []
hex_encode (b ∷ bytes) = hex_digit (b / 16) ∷ hex_digit (b % 16) ∷ hex_encode bytes

-- `hex.DecodeString`, where an error is `none`.
unfoldable pub hex_decode : Text → Option (List ℕ)
unfolding hex_value
hex_decode [] = some []
hex_decode (c ∷ []) = none
hex_decode (c ∷ d ∷ s) =
    let rest = hex_decode s in
    elim (hex_value c) [
      | none ↦ none
      | some high ↦ elim (hex_value d) [
        | none ↦ none
        | some low ↦ elim rest [ none ↦ none | some bytes ↦ some ((high * 16 + low) ∷ bytes) ]
      ]
    ]

abbrev dotted : List ℕ → Text
dotted bytes = join (b'.' ∷ []) (map itoa bytes)

-- `ip.String()`, for an address of four or of sixteen bytes.
unfoldable pub ip_text : List ℕ → Text
unfolding ipv6_text groups_of to4 join itoa hex_encode
ip_text [] = codes "<nil>"
ip_text (b ∷ bytes) =
    let ip = b ∷ bytes in
    if length ip == 4
    then dotted ip
    else if not (length ip == 16)
    then b'?' ∷ hex_encode ip
    else elim (to4 ip) [ some ip4 ↦ dotted ip4 | none ↦ ipv6_text (groups_of ip) ]

abbrev ipv6_loopback : Ip
ipv6_loopback = 0 ∷ 0 ∷ 0 ∷ 0 ∷ 0 ∷ 0 ∷ 0 ∷ 0 ∷ 0 ∷ 0 ∷ 0 ∷ 0 ∷ 0 ∷ 0 ∷ 0 ∷ 1 ∷ []

abbrev starts_with : ℕ → List ℕ → Bool
starts_with n [] = false
starts_with n (b ∷ _) = b == n

-- `ip.IsLoopback()`, for an address of sixteen bytes.
unfoldable pub is_loopback : Ip → Bool
unfolding to4 Text-discrete
is_loopback ip = elim (to4 ip) [ some ip4 ↦ starts_with 127 ip4 | none ↦ text_eq ip ipv6_loopback ]

ipv6_text_test :
    ip_text (32 ∷ 1 ∷ 13 ∷ 184 ∷ 0 ∷ 0 ∷ 0 ∷ 0 ∷ 0 ∷ 0 ∷ 0 ∷ 0 ∷ 0 ∷ 1 ∷ 0 ∷ 15 ∷ [])
    ≡ codes "2001:db8::1:f"
unfolding ip_text
ipv6_text_test = refl

loopback_text_test : ip_text ipv6_loopback ≡ codes "::1"
unfolding ip_text
loopback_text_test = refl

ipv4_text_test : ip_text (v4_prefix ++ 10 ∷ 0 ∷ 0 ∷ 254 ∷ []) ≡ codes "10.0.0.254"
unfolding ip_text
ipv4_text_test = refl
