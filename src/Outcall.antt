-- ===== src/Outcall.antt =====
-- internal/outcall: decisions of the calls to brokers that need no connection.
pub mod CacheControl
mod Tests
