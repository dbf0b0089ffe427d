-- ===== src/Args.antt =====
-- main.c, getargs and what it calls: the command line.
pub mod Result
pub mod Options
pub mod Number
pub mod Signal
pub mod Step
pub mod Passing
pub mod Other
pub mod Scan
pub mod Finish
pub mod Keep
pub mod PassNumbers
pub mod StartNumbers
pub mod Accepted
pub mod Scanned
pub mod Runnable
mod Tests
