-- ===== src/Inet.antt =====
-- source/inet: what a socket reads and writes through the operating system.
pub mod Socket
pub mod Poll
pub mod Stream
mod Tests
