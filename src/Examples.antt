-- ===== src/Examples.antt =====
-- Tests, and each theorem with a hypothesis at an input that meets it.
mod Fixed
mod Breaker
mod Bulkhead
mod RateLimit
mod Backoff
mod Resilience
mod Config
mod Metrics
mod Adaptive
mod Middleware
mod Watcher
mod Streak
mod Timeouts
mod Nested
mod Typed
mod Settings
mod Recovery
