-- ===== src/Public.antt =====
-- The public packages under pkg, which call the internal ones.
pub mod Breaker
pub mod Adaptive
pub mod Runs
pub mod Metrics
pub mod Typed
