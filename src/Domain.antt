-- ===== src/Domain.antt =====
-- internal/domain: launch instances, model and runtime records, environment patches, variable
-- resolution, and the resolution of launch commands.
pub mod Instance
pub mod Owner
pub mod Entries
pub mod EnvPatch
pub mod VarResolve
pub mod Command
mod Tests
