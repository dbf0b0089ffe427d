-- ===== src/Framing.antt =====
-- common.c, readn, writen and msg_send: bytes and messages through a socket.
pub mod Defs
pub mod Whole
pub mod Send
pub mod Recv
pub mod Deliver
pub mod Together
mod Tests
