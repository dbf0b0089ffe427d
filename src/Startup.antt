-- ===== src/Startup.antt =====
-- The server from its command to its loop (server.c, daemonize, serv_main), and main (main.c).
pub mod Defs
mod Socket
mod Listening
mod Serving
mod Ends
mod Descriptors
pub mod Main
mod Program
mod Tests
