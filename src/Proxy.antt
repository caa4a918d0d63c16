-- ===== src/Proxy.antt =====
-- internal/proxy: decisions of the proxy that need no connection.
pub mod TrustedProxy
pub mod Retry
pub mod Pin
pub mod Gate
mod Tests
