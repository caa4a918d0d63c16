-- ===== src/Config.antt =====
-- internal/config: the texts of settings.
pub mod Size
mod Tests
