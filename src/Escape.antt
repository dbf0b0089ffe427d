-- ===== src/Escape.antt =====
-- Backslash escapes: read by strunesc (common.c), written by cli_dump_cstring (client.c).
pub mod Defs
pub mod RoundTrip
mod Tests
