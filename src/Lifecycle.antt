-- ===== src/Lifecycle.antt =====
-- What the transactions on tasks keep true, over all of internal/storage and internal/scheduler.
pub mod Rows
pub mod Effects
pub mod Transitions
pub mod Step
pub mod Advance
pub mod Invariant
pub mod Fencing
pub mod Ending
pub mod Stuck
pub mod Creation
pub mod Samples
pub mod Examples
