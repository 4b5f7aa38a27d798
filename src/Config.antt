-- ===== src/Config.antt =====
-- internal/config/config.go: loading and validating the configuration.
pub mod Types
pub mod Example
mod Tests
pub mod Errors
pub mod Files
pub mod Limits
pub mod Names
pub mod Bindings
pub mod Parse
pub mod Service
pub mod Source
