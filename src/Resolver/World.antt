-- ===== src/Resolver/World.antt =====
-- What the resolver calls outside the repository: the library of DNS messages, the network and the
-- clock, as one record of functions.
use kaven_dns.Dns.{Rr}
use kaven_dns.Prelude.{ℕ, List, Text, Bool}

-- The sections of a response, and its flag TC.
pub record Message : Type 0 where
  pub rcode : ℕ
  pub answer : List Rr
  pub ns : List Rr
  pub extra : List Rr
  pub truncated : Bool

-- What `ExchangeContext` returns.
pub data Exchange : Type 0 where
  failed : Exchange
  replied : Message → Exchange

-- A `forwardResult`.
pub data Reply : Type 0 where
  failure : Reply
  success : Message → Text → Reply

pub data Transport : Type 0 where
  udp : Transport
  tcp : Transport

-- The three readings of the clock that one level makes: two by `Cache.Get`, one by `Cache.Set`.
pub record Readings : Type 0 where
  pub on_get : ℕ
  pub on_hit : ℕ
  pub on_set : ℕ

-- The number that a function takes first says at which level of a CNAME chain it is called:
-- how many more levels may follow.
pub record World : Type 0 where
  -- dns.Fqdn
  pub fqdn : Text → Text
  -- dns.TypeToString
  pub type_name : ℕ → Text
  -- a question for a name and a type, to an address
  pub exchange : ℕ → Transport → Text → Text → ℕ → Exchange
  -- the order in which the replies of the goroutines arrive at the channel
  pub arrival : ℕ → List Reply → List Reply
  pub clock : ℕ → Readings
