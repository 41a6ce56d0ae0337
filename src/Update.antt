-- ===== src/Update.antt =====
-- Versions and the choice of the latest one, internal/update/update.go.
pub mod Defs
pub mod Order
pub mod Printing
pub mod Latest
mod Tests
unfoldable pub use Defs.{check}
