-- ===== src/Config/Durations.antt =====
-- The settings as durations (internal/config/config.go): milliseconds and seconds as nanoseconds,
-- in 64 bits.
use goshield_bootcamp.Base.Go.{second, millisecond, Duration}
use goshield_bootcamp.Base.Int.{pos, ℤ, ◌*ℤ◌, wrap64}
use goshield_bootcamp.Config.Types.{
  AdaptiveConfig, CircuitBreakerConfig, RetryConfig, TimeoutConfig, BulkheadConfig,
}

-- `time.Duration(n) * time.Second`
unfoldable pub of_seconds : ℤ → Duration
of_seconds n = wrap64 (n *ℤ pos second)

-- `time.Duration(n) * time.Millisecond`
unfoldable pub of_milliseconds : ℤ → Duration
of_milliseconds n = wrap64 (n *ℤ pos millisecond)

abbrev pub timeout_duration : TimeoutConfig → Duration
unfolding of_milliseconds
timeout_duration t = of_milliseconds t.duration_ms

abbrev pub max_wait_duration : BulkheadConfig → Duration
unfolding of_milliseconds
max_wait_duration b = of_milliseconds b.max_wait_duration_ms

abbrev pub open_duration : CircuitBreakerConfig → Duration
unfolding of_seconds
open_duration c = of_seconds c.timeout_seconds

abbrev pub slow_call_duration : CircuitBreakerConfig → Duration
unfolding of_milliseconds
slow_call_duration c = of_milliseconds c.slow_call_duration_ms

module _ {ℓ} {F : Type ℓ} where
  abbrev pub interval : RetryConfig F → Duration
  unfolding of_milliseconds
  interval r = of_milliseconds r.interval_ms

  abbrev pub max_interval : RetryConfig F → Duration
  unfolding of_milliseconds
  max_interval r = of_milliseconds r.max_interval_ms

  abbrev pub max_duration : RetryConfig F → Duration
  unfolding of_milliseconds
  max_duration r = of_milliseconds r.max_duration_ms

  abbrev pub min_slow_call_duration : AdaptiveConfig F → Duration
  unfolding of_milliseconds
  min_slow_call_duration a = of_milliseconds a.min_slow_call_duration_ms

  abbrev pub max_slow_call_duration : AdaptiveConfig F → Duration
  unfolding of_milliseconds
  max_slow_call_duration a = of_milliseconds a.max_slow_call_duration_ms

  abbrev pub max_timeout : AdaptiveConfig F → Duration
  unfolding of_seconds
  max_timeout a = of_seconds a.max_timeout_seconds

  abbrev pub timeout : AdaptiveConfig F → Duration
  unfolding of_seconds
  timeout a = of_seconds a.timeout_seconds
