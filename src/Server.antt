-- ===== src/Server.antt =====
-- server.c: the daemon that owns the pty, keeps its output and serves one client at a time.
pub mod Buffers
pub mod Invariant
pub mod Overflow
pub mod Lookback
pub mod Output
pub mod State
pub mod Expect
pub mod Pass
pub mod Copied
pub mod PassSafe
pub mod PassFrame
pub mod Verdict
pub mod Tried
pub mod Outcome
pub mod Process
pub mod InOrder
pub mod ProcessSafe
pub mod Loop
pub mod AtHead
pub mod LoopSafe
mod Track
mod TrackCopy
mod TrackPass
mod TrackMsg
mod TrackLoop
mod Exact
mod Tests
