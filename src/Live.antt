-- ===== src/Live.antt =====
-- Live notifications: internal/live/broker.go, its calls in internal/scheduler/scheduler.go, and
-- internal/api/stream.go.
pub mod Broker
pub mod Notify
pub mod Stream
pub mod Durable
pub mod Tenants
pub mod Private
pub mod Isolation
pub mod Examples
