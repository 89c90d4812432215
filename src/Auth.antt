-- ===== src/Auth.antt =====
-- internal/auth/auth.go: who a request comes from, and what it may do.
pub mod Text
pub mod Tokens
pub mod Authenticate
pub mod Keys
pub mod Grants
pub mod Examples
