-- ===== src/Security.antt =====
-- internal/webui/security: the guards of the web interface.
pub mod RateLimit
pub mod Sessions
mod Tests
