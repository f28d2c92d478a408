-- ===== src/Config.antt =====
-- The configuration: config/config.go and config/middleware.go.
pub mod Warnings
pub mod Settings
pub mod Profile
pub mod Strict
pub mod Load
pub mod Sound
pub mod Scanned
