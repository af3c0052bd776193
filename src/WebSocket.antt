-- ===== src/WebSocket.antt =====
-- WebSocket frames and the connection that reads and writes them: include/http/cwebsocket.h,
-- source/http/cwebsocket.cpp and source/http/cwsconn.cpp.
pub mod Wire
pub mod Frame
pub mod Conn
pub mod RoundTrip
pub mod Reports
mod Tests
