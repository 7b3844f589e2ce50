-- ===== src/Sockets.antt =====
-- The functions of lib/socketSetup/src/socket_setup.c.
pub mod Setup
pub mod ServerSetup
pub mod Ready
pub mod ServerReady
