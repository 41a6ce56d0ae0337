-- ===== src/DnsServer.antt =====
-- The DNS service, internal/dnsserver/server.go: its pair of listeners, the handling of a query, and
-- the address of the client.
pub mod Sockets
pub mod Client
pub mod Query
pub mod Restart
pub mod Origin
pub mod Answering
mod Tests
