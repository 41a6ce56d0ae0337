-- ===== src/LogStore.antt =====
-- The console and operation logs, internal/logstore/logstore.go.
pub mod Defs
pub mod Bounds
mod Tests
