-- ===== src/Process.antt =====
-- internal/process: the supervisor of launched instances.
pub mod Errors
pub mod ErrorTree
pub mod Controller
pub mod Arbitration
pub mod Restart
pub mod Recovery
pub mod Commit
pub mod System
pub mod Logs
mod Tests
