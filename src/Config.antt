-- ===== src/Config.antt =====
-- The configuration, internal/config/config.go.
mod Defs
pub mod Sanitize
pub mod Updates
mod Tests
pub use Defs.{Config, Store, UpdateError, refused, write_failed, FileRead, missing, contents}
unfoldable pub use Defs.{
  is_ip, is_upstream, defaults, clean_upstreams, is_port, save, load, sanitize, parse_upstream,
  clamp, get, update, replace, apply_environment,
}
