-- ===== src/Config.antt =====
-- internal/config/config.go: the settings of the commands, from the environment.
pub mod Env
pub mod Load
pub mod Safe
pub mod Examples
