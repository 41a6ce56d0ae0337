-- ===== src/Auth.antt =====
-- The sessions, the lockout after failed logins and the stored password, internal/auth/auth.go.
pub mod Defs
pub mod Password
pub mod Sessions
pub mod Lockout
pub mod Stored
pub mod Saved
mod Tests
