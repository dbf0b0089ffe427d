-- ===== src/Pty.antt =====
-- Pseudo terminals (pty.c).
pub mod Tty
mod Raw
pub mod Open
pub mod Slave
pub mod Frame
mod Tests
