-- ===== src/History.antt =====
-- The query history, internal/history/history.go.
pub mod Defs
pub mod Analytics
pub mod Sampled
pub mod Trim
pub mod Search
pub mod Runs
pub mod Saved
pub mod Newest
use kaven_dns.Prelude.{
  none, some, [], ◌∷◌, zero, suc, true, false, inl, inr, refl, pos, negsuc, arith, ℕ, ◌≡◌, List,
  Text, Bool, Option,
}
pub use Defs.{Entry, Stats, Filter, Store}
unfoldable pub use Defs.{new, record_entry, trim, search, list, reset, set_limits}
mod Tests
