-- ===== src/Backoff.antt =====
-- Retries and their delays, internal/backoff/backoff.go.
pub mod Strategy
pub mod Fibonacci
pub mod Delays
pub mod Retry
pub mod Attempts
