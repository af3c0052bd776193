-- ===== src/ApiServer.antt =====
-- application/push1st/apiserver/capiserver.cpp: what the HTTP interface for the applications'
-- servers does, from a request's route to the response.
pub mod Events
pub mod Told
pub mod Channels
pub mod Tokens
pub mod Requests
mod Tests
