-- ===== src/Config/Validate.antt =====
-- The validation (internal/config/config.go).
use goshield_bootcamp.Base.Float.{Float64}
use goshield_bootcamp.Base.Int.{pos, ltb_ℤ, leb_ℤ}
use goshield_bootcamp.Base.{
  ℕ, Bool, not, ◌&&◌, ◌||◌, Option, none, some, List, [], ◌∷◌, ◌++◌, if◌then◌else◌, leb, ltb,
}
use Prim.Native.String.{String, ◌++◌ as ◌<>◌}
use text.Mathlib.Text.{◌==◌}
use goshield_bootcamp.Config.Types.{
  AdaptiveConfig, CircuitBreakerConfig, RetryConfig, RateLimiterConfig, TimeoutConfig,
  BulkheadConfig, Config,
}

-- `if b { errs = append(errs, message) }` for each pair, in order.
unfoldable pub report : List (Bool × String) → List String
report [] = []
report ((b, message) ∷ checks) = let rest = report checks in if b then message ∷ rest else rest

-- `strings.Join(errs, "\n  - ")`
unfoldable pub join_lines : List String → String
join_lines [] = ""
join_lines (e ∷ []) = e
join_lines (e ∷ f ∷ errs) = e <> "\n  - " <> join_lines (f ∷ errs)

-- The error's text, if there is an error.
unfoldable pub explain : List String → Option String
unfolding join_lines
explain [] = none
explain (e ∷ errs) = some ("config validation failed:\n  - " <> join_lines (e ∷ errs))

abbrev pub check_breaker : CircuitBreakerConfig → List (Bool × String)
check_breaker cb =
    (ltb 100 cb.failure_rate_threshold, "circuit_breaker.failure_rate_threshold must be <= 100")
    ∷ (
      ltb 100 cb.slow_call_rate_threshold,
      "circuit_breaker.slow_call_rate_threshold must be <= 100",
    )
    ∷ (leb cb.sliding_window_size 0, "circuit_breaker.sliding_window_size must be > 0")
    ∷ (leb_ℤ cb.timeout_seconds (pos 0), "circuit_breaker.timeout_seconds must be > 0")
    ∷ (
      not (cb.sliding_window_type == "count") && not (cb.sliding_window_type == "time"),
      "circuit_breaker.sliding_window_type must be 'count' or 'time'",
    )
    ∷ []

abbrev pub check_timeout : TimeoutConfig → List (Bool × String)
check_timeout t = (leb_ℤ t.duration_ms (pos 0), "timeout.duration_ms must be > 0") ∷ []

abbrev pub check_bulkhead : BulkheadConfig → List (Bool × String)
check_bulkhead b = (leb_ℤ b.max_concurrent (pos 0), "bulkhead.max_concurrent must be > 0") ∷ []

-- The checks of a section, if it is there.
abbrev pub section {ℓ} : {A : Type ℓ} → (A → List (Bool × String)) → Option A → List (Bool × String)
section check none = []
section check (some a) = check a

module _ {ℓ} {F : Type ℓ} (float : Float64 F) where
  open float use {lt, le, of_uint}

  abbrev pub is_outside : ℕ → F → Bool
  is_outside top x = lt x (of_uint 0) || lt (of_uint top) x

  abbrev pub check_adaptive : AdaptiveConfig F → List (Bool × String)
  check_adaptive a =
      (
        is_outside 1 a.failure_rate_ema_alpha,
        "adaptive.failure_rate_ema_alpha must be between 0 and 1",
      )
      ∷ (is_outside 1 a.latency_ema_alpha, "adaptive.latency_ema_alpha must be between 0 and 1")
      ∷ (
        is_outside 100 a.min_adaptive_threshold,
        "adaptive.min_adaptive_threshold must be between 0 and 100",
      )
      ∷ (
        is_outside 100 a.max_adaptive_threshold,
        "adaptive.max_adaptive_threshold must be between 0 and 100",
      )
      ∷ (
        lt a.max_adaptive_threshold a.min_adaptive_threshold,
        "adaptive.min_adaptive_threshold must be <= max_adaptive_threshold",
      )
      ∷ (
        ltb_ℤ a.consecutive_failure_limit (pos 0),
        "adaptive.consecutive_failure_limit must be >= 0",
      )
      ∷ (lt a.timeout_multiplier (of_uint 1), "adaptive.timeout_multiplier must be >= 1")
      ∷ (leb_ℤ a.max_timeout_seconds (pos 0), "adaptive.max_timeout_seconds must be > 0")
      ∷ []

  abbrev pub check_retry : RetryConfig F → List (Bool × String)
  check_retry r =
      (ltb_ℤ r.max_retries (pos 0), "retry.max_retries must be >= 0")
      ∷ (leb_ℤ r.interval_ms (pos 0), "retry.interval_ms must be > 0")
      ∷ (
        not (r.strategy == "fixed")
            && not (r.strategy == "exponential")
            && not (r.strategy == "exponential_random")
            && not (r.strategy == "fibonacci"),
        "retry.strategy must be one of: fixed, exponential, exponential_random, fibonacci",
      )
      ∷ (lt r.multiplier (of_uint 1), "retry.multiplier must be >= 1")
      ∷ []

  abbrev pub check_rate_limiter : RateLimiterConfig F → List (Bool × String)
  check_rate_limiter rl =
      (le rl.rate (of_uint 0), "rate_limiter.rate must be > 0")
      ∷ (leb_ℤ rl.burst (pos 0), "rate_limiter.burst must be > 0")
      ∷ (
        not (rl.kind == "token_bucket") && not (rl.kind == "sliding_window"),
        "rate_limiter.type must be 'token_bucket' or 'sliding_window'",
      )
      ∷ []

  unfoldable pub errors : Config F → List String
  unfolding report
  errors c =
      report (section check_breaker c.circuit_breaker)
      ++ report (section check_adaptive c.adaptive)
      ++ report (section check_retry c.retry)
      ++ report (section check_rate_limiter c.rate_limiter)
      ++ report (section check_timeout c.timeout)
      ++ report (section check_bulkhead c.bulkhead)

  unfoldable pub validate : Config F → Option String
  unfolding errors explain
  validate c = explain (errors c)
