-- ===== src/Glob.antt =====
-- common.c, glob2re: the glob of `expect -glob` as an extended regular expression.
pub mod Defs
pub mod Bounds
pub mod Plain
mod Tests
