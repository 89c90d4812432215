-- ===== src/RateLimit.antt =====
-- internal/ratelimit/limiter.go: the token bucket of a tenant, and the middleware around it.
pub mod Bucket
pub mod Middleware
pub mod Bounds
pub mod Examples
