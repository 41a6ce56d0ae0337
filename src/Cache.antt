-- ===== src/Cache.antt =====
-- The answer cache, internal/cache/cache.go. A method returns the new state beside its result. Each
-- reading of the clock is an argument, in nanoseconds since the epoch. Records are values here, so
-- the copies of `cloneResult` are the values themselves.
mod Defs
pub mod Linked
pub mod Invariant
pub mod Lru
pub mod Reads
pub mod Aging
pub mod Runs
mod Tests
pub use Defs.{Result, Entry, Cache, Info}
unfoldable pub use Defs.{
  new, remove_order, touch, remove, evict_to, get, set, sweep, flush, info, set_max_entries,
  remaining_seconds, cap_ttl, aged,
}
