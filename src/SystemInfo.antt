-- ===== src/SystemInfo.antt =====
-- The load of the machine and of the program, internal/systeminfo.
pub mod Defs
pub mod Sampling
pub mod Platforms
pub mod Percent
pub mod Reading
mod Tests
