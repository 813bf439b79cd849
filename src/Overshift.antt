-- ===== src/Overshift.antt =====
-- The migration engine, overshift/src. The database is a parameter; what the engine does is the
-- sequence of its requests.
pub mod Types
pub mod Db
pub mod Lock
pub mod Validate
pub mod Apply
pub mod Migration
pub mod Planning
pub mod Rollback
pub mod DbInfo
pub mod Modules
pub mod Builder
