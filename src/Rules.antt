-- ===== src/Rules.antt =====
-- The resolution rules, internal/rules/rules.go.
mod Domain
mod Defs
pub mod Validate
pub mod Find
pub mod Patterns
pub mod Stores
pub mod Failures
pub mod Accepted
pub mod Accepting
pub mod Normal
mod Tests
pub use Defs.{Rule, Match, Store, FileRead, missing, loaded}
pub use Validate.{Problem}
unfoldable pub use Domain.{normalize_domain, match_domain, pattern_score, is_domain}
unfoldable pub use Defs.{load, new, add, update, remove, replace_all, find}
unfoldable pub use Validate.{validate}
