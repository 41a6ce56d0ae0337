-- ===== src/Persist.antt =====
-- The writing of a JSON file, internal/persist/json.go.
mod Defs
pub mod Write
mod Tests
pub use Defs.{
  Temporary, absent, partial, whole, Disk, Removal, removed, was_missing, remove_failed, Outcome,
}
unfoldable pub use Defs.{write_json}
