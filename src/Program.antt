-- ===== src/Program.antt =====
-- The program as a whole, cmd/kaven-dns/main.go: its start, what happens while it runs, and its end.
mod Defs
pub mod Runs
pub mod Utf8
pub mod Kept
mod Tests
