-- ===== src/Raw.antt =====
-- Raw websocket sessions: application/push1st/proto/cwssession.cpp.
pub mod Connect
pub mod Session
pub mod Leaving
mod Tests
