-- ===== src/Pusher.antt =====
-- Sessions of the Pusher protocol: application/push1st/proto/cpushersession.h and cpushersession.cpp.
pub mod Session
pub mod Entry
pub mod Table
mod Tests
