-- ===== src/Go.antt =====
-- What the program uses of Go's standard library, over texts of ASCII bytes: the packages strings,
-- strconv and net. The Unicode tables of `strings.ToLower`, `strings.ToUpper` and
-- `strings.TrimSpace` are left out: a byte of 128 or more is neither a space nor a letter here.
pub mod Strings
pub mod Strconv
mod Net
pub mod Decimal
mod IpText
pub mod Trim
unfoldable pub use Strings.{
  is_space, to_lower, to_upper, trim_space, is_prefix, has_prefix, has_suffix, trim_prefix,
  trim_suffix, contains, split, split_from, is_separator, fields,
}
unfoldable pub use Strconv.{itoa, atoi, natural, parse_uint, parse_int}
unfoldable pub use Net.{Ip, parse_ip, to4, split_host_port, join_host_port}
unfoldable pub use IpText.{
  hex_digit, hex_group_text, join, groups_of, longest_run, ipv6_text, hex_encode, hex_decode,
  ip_text, is_loopback,
}
unfoldable pub use Net.{hex_value}
