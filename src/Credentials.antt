-- ===== src/Credentials.antt =====
-- Applications and their tokens: include/core/credentials/ccredentials.h and
-- source/core/credentials/ccredentials.cpp.
pub mod Text
pub mod Decimal
pub mod App
pub mod Session
pub mod Access
pub mod Bearer
mod Tests
