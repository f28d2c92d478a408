-- ===== src/Middleware.antt =====
-- The runtime guard: middleware/.
pub mod Cache
pub mod Options
pub mod Guard
pub mod Driver
pub mod Tracker
pub mod Dedup
