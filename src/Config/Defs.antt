-- ===== src/Config/Defs.antt =====
-- The settings, their sanitizing, and the store. An int is an integer here: no computation on the
-- settings leaves 64 bits.
use kaven_dns.Go.{split_host_port, trim_space, join_host_port, parse_ip, atoi}
use kaven_dns.Persist.{write_json, Outcome, Disk}
use kaven_dns.Prelude.{
  none, some, [], ◌∷◌, true, false, inl, inr, pos, List, Text, Bool, Option, take, ◌||◌, length,
  not, ltb_ℤ, ltb, is_empty, ◌⊎◌, ℤ, if◌then◌else◌, codes,
}

pub record Config : Type 0 where
  pub dns_port : ℤ
  pub web_port : ℤ
  pub bind_address : Text
  pub web_bind_address : Text
  pub upstreams : List Text
  pub forward_timeout_ms : ℤ
  pub ttl_min : ℤ
  pub ttl_max : ℤ
  pub query_retention_days : ℤ
  pub query_history_max_entries : ℤ
  pub cache_max_entries : ℤ
  pub session_ttl_hours : ℤ
  pub password_hash : Text

abbrev pub default_query_max_entries : ℤ
default_query_max_entries = pos 10_000

abbrev pub default_cache_max_entries : ℤ
default_cache_max_entries = pos 2_000

abbrev pub any_address : Text
any_address = codes "0.0.0.0"

abbrev pub default_upstreams : List Text
default_upstreams = codes "223.5.5.5" ∷ codes "119.29.29.29" ∷ []

unfoldable pub defaults : Config
defaults = record {
  dns_port = pos 53;
  web_port = pos 8080;
  bind_address = any_address;
  web_bind_address = any_address;
  upstreams = default_upstreams;
  forward_timeout_ms = pos 3000;
  ttl_min = pos 10;
  ttl_max = pos 3600;
  query_retention_days = pos 1;
  query_history_max_entries = default_query_max_entries;
  cache_max_entries = default_cache_max_entries;
  session_ttl_hours = pos 24;
  password_hash = [];
}

unfoldable pub clamp : ℤ → ℤ → ℤ → ℤ → ℤ
clamp value min max fallback = if ltb_ℤ value min || ltb_ℤ max value then fallback else value

abbrev pub is_ip : Text → Bool
is_ip s = elim (parse_ip s) [ none ↦ false | some _ ↦ true ]

-- `err != nil || n < 1 || n > 65535`.
unfoldable pub is_port : Text → Bool
is_port port = elim (atoi port) [
  | none ↦ false
  | some n ↦ not (ltb_ℤ n (pos 1) || ltb_ℤ (pos 65535) n)
]

-- An error is `none`: its text only repeats the value.
unfoldable pub parse_upstream : Text → Option Text
unfolding is_port
parse_upstream value =
    if is_ip value then some (join_host_port value (codes "53")) else elim (split_host_port value) [
      | none ↦ none
      | some (host, port) ↦
          if not (is_ip host)
          then none
          else if not (is_port port)
          then none
          else some (join_host_port host port)
    ]

abbrev pub is_upstream : Text → Bool
is_upstream s = elim (parse_upstream s) [ none ↦ false | some _ ↦ true ]

-- The loop over the upstreams: trimmed, and kept if valid.
unfoldable pub valid_upstreams : List Text → List Text
valid_upstreams [] = []
valid_upstreams (u ∷ us) =
    if is_upstream (trim_space u) then trim_space u ∷ valid_upstreams us else valid_upstreams us

abbrev pub is_nil : List Text → Bool
is_nil [] = true
is_nil (_ ∷ _) = false

unfoldable pub or_default : List Text → List Text
or_default us = if is_nil us then default_upstreams else us

unfoldable pub at_most_eight : List Text → List Text
at_most_eight us = if ltb 8 (length us) then take 8 us else us

unfoldable pub clean_upstreams : List Text → List Text
unfolding valid_upstreams or_default at_most_eight
clean_upstreams us = at_most_eight (or_default (valid_upstreams us))

abbrev pub clean_address : Text → Text
clean_address s = if is_ip s then s else any_address

unfoldable pub sanitize : Config → Config
unfolding clamp clean_upstreams defaults
sanitize c =
    let ttl_min = clamp c.ttl_min (pos 1) (pos 3600) defaults.ttl_min in
    record {
      dns_port = clamp c.dns_port (pos 1) (pos 65535) defaults.dns_port;
      web_port = clamp c.web_port (pos 1) (pos 65535) defaults.web_port;
      bind_address = clean_address c.bind_address;
      web_bind_address = clean_address c.web_bind_address;
      upstreams = clean_upstreams c.upstreams;
      forward_timeout_ms =
          clamp c.forward_timeout_ms (pos 500) (pos 30000) defaults.forward_timeout_ms;
      ttl_min = ttl_min;
      ttl_max = clamp c.ttl_max ttl_min (pos 86400) defaults.ttl_max;
      query_retention_days =
          clamp c.query_retention_days (pos 0) (pos 30) defaults.query_retention_days;
      query_history_max_entries =
          clamp c.query_history_max_entries (pos 100) (pos 1_000_000)
            defaults.query_history_max_entries;
      cache_max_entries =
          clamp c.cache_max_entries (pos 100) (pos 100_000) defaults.cache_max_entries;
      session_ttl_hours = clamp c.session_ttl_hours (pos 1) (pos 720) defaults.session_ttl_hours;
      password_hash = c.password_hash;
    }

-- The environment, by the name of a variable: an unset variable is empty.
unfoldable pub port_or : Text → ℤ → ℤ
port_or value old =
    if is_empty value then old else elim (atoi value) [ none ↦ old | some port ↦ port ]

unfoldable pub apply_environment : (Text → Text) → Config → Config
unfolding port_or
apply_environment env c =
    let bind = env (codes "KAVEN_BIND_ADDRESS") in
    let web_bind = env (codes "KAVEN_WEB_BIND_ADDRESS") in
    record c {
      bind_address = if is_empty bind then c.bind_address else bind;
      web_bind_address = if is_empty web_bind then c.web_bind_address else web_bind;
      dns_port = port_or (env (codes "KAVEN_DNS_PORT")) c.dns_port;
      web_port = port_or (env (codes "KAVEN_WEB_PORT")) c.web_port;
    }

-- What reading the file gives: no file, another error, or the decoding of its JSON over a value.
pub data FileRead : Type 0 where
  missing : FileRead
  unreadable : FileRead
  contents : (Config → Option Config) → FileRead

unfoldable pub load : FileRead → (Text → Text) → Option Config
unfolding apply_environment sanitize defaults
load missing env = some (sanitize (apply_environment env defaults))
load unreadable env = none
load (contents decode) env = elim (decode defaults) [
  | none ↦ none
  | some c ↦ some (sanitize (apply_environment env c))
]

-- The store keeps a value beside the disk with its file.
pub record Store : Type 0 where
  pub value : Config
  pub disk : Disk Config

-- `Get` copies the value.
unfoldable pub get : Store → Config
get s = s.value

-- `Save`.
unfoldable pub save : Outcome → Config → Disk Config → Disk Config × Bool
save o c d = write_json o (sanitize c) d

pub data UpdateError : Type 0 where
  refused : Text → UpdateError
  write_failed : UpdateError

unfoldable pub replace : Outcome → Config → Store → Store × Option UpdateError
unfolding save
replace o c s =
    let clean = sanitize c in
    let (disk, saved) = save o clean s.disk in
    if not saved
    then (record s { disk = disk }, some write_failed)
    else (record { value = clean; disk = disk }, none)

-- What `Update` does with the result of the change: the next value, or an error's message.
unfoldable pub settle : Outcome → Store → Config ⊎ Text → Store × Option UpdateError
settle o s (inr message) = (s, some (refused message))
settle o s (inl next) = replace o next s

-- The new state comes with the error, if there is one.
unfoldable pub update : Outcome → (Config → Config ⊎ Text) → Store → Store × Option UpdateError
unfolding settle
update o change s = settle o s (change s.value)

-- `DataDir`, where the absolute path of a text may be an error.
unfoldable pub data_dir : (Text → Option Text) → Text → Text
data_dir absolute value =
    if is_empty value
    then codes "data"
    else elim (absolute value) [ none ↦ codes "data" | some path ↦ path ]
