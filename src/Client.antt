-- ===== src/Client.antt =====
-- client.c: a client that sends one request and shows what comes back.
pub mod Request
pub mod Agree
pub mod Plain
pub mod Subst
pub mod Unchanged
pub mod State
pub mod Show
pub mod Loop
pub mod Main
pub mod Rounds
pub mod Exit
pub mod ReadBack
pub mod Get
pub mod AtOnce
pub mod Carried
pub mod Settled
mod Tests
