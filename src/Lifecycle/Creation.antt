-- ===== src/Lifecycle/Creation.antt =====
-- What `CreateRun` of internal/storage/postgres.go inserts.
pub mod Ids
pub mod Rows
pub mod Tables
pub mod Names
pub mod Ordered
pub mod Created
pub mod Growth
pub mod Examples
