-- ===== src/Scheduler.antt =====
-- internal/scheduler: recovery and dispatch of tasks, and the publication of the outbox.
pub mod Tick
pub mod Outbox
pub mod Order
pub mod Drain
pub mod Schedules
pub mod Examples
