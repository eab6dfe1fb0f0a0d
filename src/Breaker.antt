-- ===== src/Breaker.antt =====
-- The circuit breaker, internal/breaker/breaker.go, and the adaptive one,
-- internal/breaker/adaptive.go.
pub mod Config
pub mod Core
pub mod Calls
pub mod Trace
pub mod Totals
pub mod Invariant
pub mod Window
pub mod HalfOpen
pub mod Forced
pub mod Trip
pub mod Streak
pub mod Recovery
pub mod Lost
pub mod Notify
pub mod Execute
pub mod Sections
pub mod Adaptive
pub mod Latch
pub mod Params
