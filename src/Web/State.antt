-- ===== src/Web/State.antt =====
-- The state of the program behind the console, what a request brings with it, and the responses.
use kaven_dns.Auth.Defs.{Manager, LoginResult}
use kaven_dns.Auth.Password.{Crypto}
use kaven_dns.DnsServer.Sockets.{Server, Os, Binding}
use kaven_dns.Go.{trim_prefix, has_prefix, atoi, split_host_port}
use kaven_dns.Persist.{Outcome}
use kaven_dns.Prelude.{
  none, some, [], ◌∷◌, pos, ℕ, List, Text, Bool, Option, ltb_ℤ, ℤ, if◌then◌else◌, codes,
}
use kaven_dns.Resolver.{Resolved}
use kaven_dns.Resolver.World.{World}
use kaven_dns.Rules.Validate.{Problem}
use kaven_dns.SystemInfo.Defs.{Monitor}
use kaven_dns.Update.Defs.{Result, TagsRequest, Reply}
use kaven_dns.Web.Listener.{Listener}
use kaven_dns.Web.Shown.{Moment, Shown, Stream, Frame}
use kaven_dns.Cache
use kaven_dns.Config
use kaven_dns.History
use kaven_dns.LogStore.Defs
use kaven_dns.Rules

-- The components that the console works on, in the order of `Dependencies`, with the sockets of the DNS service,
-- and the console's own listener.
pub record System : Type 0 where
  pub config : Config.Store
  pub rules : Rules.Store
  pub history : History.Store
  pub cache : Cache.Cache
  pub auth : Manager
  pub logs : Defs.Store
  pub dns : Server × Os
  pub web : Listener × Os
  pub monitor : Monitor
  -- the places of `eventSlots` that are taken
  pub streams : ℕ

-- The errors that a probe of an address meets: of resolving it, and of listening on UDP and on TCP.
pub record Probe : Type 0 where
  pub unresolved : Option Text
  pub udp_error : Option Text
  pub tcp_error : Option Text

-- What the world answers while a request is served: the readings of the clock, the outcomes of the
-- writes and the random ids by their number, the random salt, the bindings of sockets, and the functions
-- of the libraries. `dns_undo` and `dns_undo_old` are the bindings of the DNS service's return after a
-- failure. The text of an error that a library or the disk reports is one text.
pub record Env : Type 0 where
  pub checked_at : ℕ
  pub extended_at : ℕ
  pub now : ℕ
  pub later : ℕ
  pub outcome : ℕ → Outcome
  pub session_outcome : Outcome
  pub fresh : ℕ → Text
  pub token : Option Text
  pub salt : Option (List ℕ)
  pub crypto : Crypto
  -- the verb %q of package fmt
  pub quote : Text → Text
  pub dns_new : Binding
  pub dns_old : Binding
  pub dns_undo : Binding
  pub dns_undo_old : Binding
  pub web_new : Bool
  pub web_old : Bool
  pub probe : Probe
  pub world : World
  -- dns.StringToType
  pub type_number : Text → Option ℕ
  pub error_text : Text
  pub moment : Moment
  -- whether the writer of the response can flush
  pub flushes : Bool
  -- the version and the commit of the build
  pub version : Text
  pub commit : Text
  -- url.PathEscape, and the client of the update check
  pub escape : Text → Text
  pub update_client : TagsRequest → Reply

-- The headers that the handlers read, and the remote address.
pub record Headers : Type 0 where
  pub authorization : Text
  pub x_auth_token : Text
  pub remote_addr : Text

-- What a response with an error says.
pub data Notice : Type 0 where
  not_json not_signed_in setup_done short_password internal : Notice
  bad_port bad_address dns_failed web_failed : Notice
  rule_not_found invalid_rule no_rules write_failed invalid_query : Notice
  rule_problems : List Problem → Notice
  login_refused : LoginResult → Notice
  config_refused : Text → Notice
  update_failed too_many_streams no_streaming : Notice

pub data Payload : Type 0 where
  error_body : Notice → Payload
  ok_body : Payload
  token_body : Text → Payload
  rules_body : List Rules.Rule → Payload
  rule_body : Option Rules.Rule → Payload
  -- how many rules were added, updated and skipped, and the problems of the first five of these
  import_body : ℕ → ℕ → ℕ → List (ℕ × List Problem) → Payload
  count_body : ℕ → Payload
  entries_body : List History.Entry → Payload
  logs_body : Defs.Snapshot → Payload
  -- the settings without the hash, and whether there is one
  config_body : Config.Config → Bool → Payload
  -- whether the password changed, and the address of the console, if that changed
  changed_body : Bool → Option (Text × ℤ) → Payload
  setup_body : Option (Text × ℤ) → Payload
  -- whether the address is available, the states of UDP and TCP, and whether it is the program's own
  check_body : Bool → Text × Text → Bool → Payload
  -- the name, the type, the milliseconds that it took, and the resolution, unless it failed
  resolved_body : Text → Text → ℕ → Option Resolved → Payload
  -- whether there is no password yet, the version and the commit
  status_body : Bool → Text → Text → Payload
  shown_body : Shown → Payload
  update_body : Result → Payload
  -- the start of a stream, with its first frame
  stream_body : Stream → Frame → Payload

pub record Response : Type 0 where
  pub status : ℕ
  pub body : Payload

abbrev pub fail : ℕ → Notice → Response
fail status notice = record { status = status; body = error_body notice }

abbrev pub done : Payload → Response
done body = record { status = 200; body = body }

-- `record`, the note in the log of operations.
unfoldable pub note : Env → Text → Text → Text → System → System
unfolding kaven_dns.LogStore.Defs.record_operation
note env kind text level s = record s {
  logs = Defs.record_operation kind text level env.now s.logs;
}

abbrev pub bearer : Text
bearer = codes "Bearer "

-- `token`.
unfoldable pub token_of : Headers → Text
token_of h =
    if has_prefix h.authorization bearer then trim_prefix h.authorization bearer else h.x_auth_token

unfoldable pub remote_ip : Headers → Text
remote_ip h = elim (split_host_port h.remote_addr) [ none ↦ h.remote_addr | some (host, _) ↦ host ]

unfoldable pub integer : Text → ℤ → ℤ
integer v fallback = elim (atoi v) [
  | none ↦ fallback
  | some n ↦ if ltb_ℤ n (pos 1) then fallback else n
]

-- `firstDomain`.
unfoldable pub first_domain : Rules.Rule → Text
first_domain r = elim r.domains [ [] ↦ codes "?" | d ∷ _ ↦ d ]
