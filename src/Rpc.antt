-- ===== src/Rpc.antt =====
-- internal/rpc.
pub mod Status
pub mod Snapshot
pub mod Worker
pub mod Uploads
pub mod Foreign
pub mod Tenants
pub mod Transports
pub mod Examples
