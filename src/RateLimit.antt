-- ===== src/RateLimit.antt =====
-- The rate limiters, internal/ratelimit/ratelimit.go.
pub mod Reservation
pub mod SlidingWindow
pub mod TokenBucket
pub mod Limiter
pub mod Burst
