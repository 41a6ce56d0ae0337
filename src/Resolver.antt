-- ===== src/Resolver.antt =====
-- The resolution of a query, internal/resolver/resolver.go: fixed rules with their CNAME chains, the
-- cache, and the upstreams.
pub mod World
mod Defs
pub mod Levels
pub mod Forward
pub mod Hits
mod Tests
pub use Defs.{Resolved}
unfoldable pub use Defs.{resolve}
