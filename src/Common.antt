-- ===== src/Common.antt =====
-- Small helpers (common.c).
pub mod Names
mod Own
pub mod Bits
mod Ones
pub mod Clock
mod OneClock
mod Tests
