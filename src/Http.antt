-- ===== src/Http.antt =====
-- The parser of requests: source/http/chttp.cpp.
pub mod Scan
pub mod Uri
pub mod Request
pub mod Uris
pub mod Tokens
pub mod Connection
pub mod Headers
pub mod Messages
pub mod Exchange
pub mod Requests
mod Tests
