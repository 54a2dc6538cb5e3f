-- ===== src/Tcp.antt =====
-- tcp.h: packets over sockets, each behind its size.
pub mod Socket
pub mod Send
pub mod Receive
pub mod Tests
