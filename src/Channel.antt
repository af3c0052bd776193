-- ===== src/Channel.antt =====
-- Channels and their registry: include/channels, source/channels and the message of
-- source/core/message/cmessage.cpp.
pub mod Kind
pub mod Table
pub mod Message
pub mod Defs
pub mod Routing
pub mod Members
pub mod Closing
pub mod Presence
pub mod Users
pub mod Registry
mod Tests
