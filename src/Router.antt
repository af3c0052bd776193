-- ===== src/Router.antt =====
-- The router of HTTP requests: include/http/crouter.h.
pub mod Path
pub mod Table
mod Tests
