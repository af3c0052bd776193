-- ===== src/Smpp.antt =====
-- The SMPP service: application/push1st/smppservice.
pub mod RateLimiter
pub mod Rate
pub mod Pdu
pub mod Parameters
pub mod Wire
pub mod Chunks
pub mod Receipt
pub mod Fields
pub mod Service
pub mod Retry
pub mod Delivered
pub mod Gateway
pub mod Replies
pub mod Link
mod Tests
