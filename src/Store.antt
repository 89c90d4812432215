-- ===== src/Store.antt =====
-- internal/storage: the durable state and its transactions.
pub mod Db
pub mod Leases
pub mod Outcomes
pub mod Runs
pub mod CreateRun
pub mod Idempotency
pub mod DeadLetter
pub mod ApiKeys
pub mod Artifacts
pub mod Workers
pub mod Errors
pub mod Definitions
pub mod Reads
pub mod Once
pub mod Examples
