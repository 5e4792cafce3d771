-- ===== src/Application.antt =====
-- internal/application: the services between the web interface and the supervisor.
pub mod Failures
pub mod Pipelines
pub mod Lifecycle
mod Tests
