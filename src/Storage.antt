-- ===== src/Storage.antt =====
-- internal/storage: the repository of runtimes, models, instances and pipelines.
pub mod Collection
pub mod Repository
pub mod Operations
pub mod Import
mod Tests
