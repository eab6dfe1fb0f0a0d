-- ===== src/Config/Environment.antt =====
-- The overrides by the environment (internal/config/config.go). The environment and the parsers of
-- strconv are the parameter `env`.
use goshield_bootcamp.Base.Int.{ℤ}
use goshield_bootcamp.Base.{ℕ, Bool, Option, none, some, if◌then◌else◌}
use Prim.Native.String.{String}
use text.Mathlib.Text.{◌==◌}
use goshield_bootcamp.Config.Types.{
  AdaptiveConfig, HttpConfig, CircuitBreakerConfig, MetricsConfig, RetryConfig, RateLimiterConfig,
  TimeoutConfig, BulkheadConfig, Config,
}
use mathlib.Core.Option.{map}

pub record Env {ℓ} (F : Type ℓ) : Type ℓ where
  pub getenv : String → String
  pub atoi : String → Option ℤ
  -- ParseUint in base 10, for that many bits.
  pub parse_uint : ℕ → String → Option ℕ
  pub parse_float : String → Option F
  pub parse_bool : String → Option Bool

module _ {ℓ} {F : Type ℓ} (env : Env F) where
  -- `if v := os.Getenv(key); v != ""`, and then the assignment if `v` parses.
  unfoldable pub apply_env {κ} : {A : Type κ} → (String → Option A) → String → A → A
  apply_env parse key dest =
      let v = env.getenv key in
      if v == "" then dest else elim (parse v) [ none ↦ dest | some n ↦ n ]

  unfoldable pub apply_env_int : String → ℤ → ℤ
  apply_env_int = apply_env env.atoi

  unfoldable pub apply_env_uint8 : String → ℕ → ℕ
  apply_env_uint8 = apply_env (env.parse_uint 8)

  unfoldable pub apply_env_uint32 : String → ℕ → ℕ
  apply_env_uint32 = apply_env (env.parse_uint 32)

  unfoldable pub apply_env_float64 : String → F → F
  apply_env_float64 = apply_env env.parse_float

  unfoldable pub apply_env_bool : String → Bool → Bool
  apply_env_bool = apply_env env.parse_bool

  unfoldable pub apply_env_string : String → String → String
  apply_env_string = apply_env (λ v. some v)

  unfoldable pub override_breaker : CircuitBreakerConfig → CircuitBreakerConfig
  override_breaker c = record c {
    timeout_seconds = apply_env_int "GOSHIELD_CIRCUIT_BREAKER_TIMEOUT_SECONDS" c.timeout_seconds;
    failure_rate_threshold =
        apply_env_uint8 "GOSHIELD_CIRCUIT_BREAKER_FAILURE_RATE_THRESHOLD" c.failure_rate_threshold;
    slow_call_rate_threshold =
        apply_env_uint8 "GOSHIELD_CIRCUIT_BREAKER_SLOW_CALL_RATE_THRESHOLD"
          c.slow_call_rate_threshold;
    minimum_number_of_calls =
        apply_env_uint32 "GOSHIELD_CIRCUIT_BREAKER_MINIMUM_NUMBER_OF_CALLS"
          c.minimum_number_of_calls;
    sliding_window_size =
        apply_env_uint32 "GOSHIELD_CIRCUIT_BREAKER_SLIDING_WINDOW_SIZE" c.sliding_window_size;
    max_requests = apply_env_uint32 "GOSHIELD_CIRCUIT_BREAKER_MAX_REQUESTS" c.max_requests;
  }

  unfoldable pub override_adaptive : AdaptiveConfig F → AdaptiveConfig F
  override_adaptive c = record c {
    failure_rate_ema_alpha =
        apply_env_float64 "GOSHIELD_ADAPTIVE_FAILURE_RATE_EMA_ALPHA" c.failure_rate_ema_alpha;
    latency_ema_alpha = apply_env_float64 "GOSHIELD_ADAPTIVE_LATENCY_EMA_ALPHA" c.latency_ema_alpha;
    min_adaptive_threshold =
        apply_env_float64 "GOSHIELD_ADAPTIVE_MIN_ADAPTIVE_THRESHOLD" c.min_adaptive_threshold;
    max_adaptive_threshold =
        apply_env_float64 "GOSHIELD_ADAPTIVE_MAX_ADAPTIVE_THRESHOLD" c.max_adaptive_threshold;
    consecutive_failure_limit =
        apply_env_int "GOSHIELD_ADAPTIVE_CONSECUTIVE_FAILURE_LIMIT" c.consecutive_failure_limit;
    slow_call_multiplier =
        apply_env_float64 "GOSHIELD_ADAPTIVE_SLOW_CALL_MULTIPLIER" c.slow_call_multiplier;
    timeout_multiplier =
        apply_env_float64 "GOSHIELD_ADAPTIVE_TIMEOUT_MULTIPLIER" c.timeout_multiplier;
    max_timeout_seconds =
        apply_env_int "GOSHIELD_ADAPTIVE_MAX_TIMEOUT_SECONDS" c.max_timeout_seconds;
  }

  unfoldable pub override_retry : RetryConfig F → RetryConfig F
  override_retry c = record c {
    max_retries = apply_env_int "GOSHIELD_RETRY_MAX_RETRIES" c.max_retries;
    interval_ms = apply_env_int "GOSHIELD_RETRY_INTERVAL_MS" c.interval_ms;
    max_interval_ms = apply_env_int "GOSHIELD_RETRY_MAX_INTERVAL_MS" c.max_interval_ms;
    multiplier = apply_env_float64 "GOSHIELD_RETRY_MULTIPLIER" c.multiplier;
    max_duration_ms = apply_env_int "GOSHIELD_RETRY_MAX_DURATION_MS" c.max_duration_ms;
  }

  unfoldable pub override_rate_limiter : RateLimiterConfig F → RateLimiterConfig F
  override_rate_limiter c = record c {
    rate = apply_env_float64 "GOSHIELD_RATE_LIMITER_RATE" c.rate;
    burst = apply_env_int "GOSHIELD_RATE_LIMITER_BURST" c.burst;
  }

  unfoldable pub override_timeout : TimeoutConfig → TimeoutConfig
  override_timeout c = record c {
    duration_ms = apply_env_int "GOSHIELD_TIMEOUT_DURATION_MS" c.duration_ms;
  }

  unfoldable pub override_bulkhead : BulkheadConfig → BulkheadConfig
  override_bulkhead c = record c {
    max_concurrent = apply_env_int "GOSHIELD_BULKHEAD_MAX_CONCURRENT" c.max_concurrent;
    max_wait_duration_ms =
        apply_env_int "GOSHIELD_BULKHEAD_MAX_WAIT_DURATION_MS" c.max_wait_duration_ms;
  }

  unfoldable pub override_metrics : MetricsConfig → MetricsConfig
  override_metrics c = record c {
    enabled = apply_env_bool "GOSHIELD_METRICS_ENABLED" c.enabled;
    namespace = apply_env_string "GOSHIELD_METRICS_NAMESPACE" c.namespace;
    endpoint = apply_env_string "GOSHIELD_METRICS_ENDPOINT" c.endpoint;
  }

  unfoldable pub override_http : HttpConfig → HttpConfig
  override_http c = record c {
    enabled = apply_env_bool "GOSHIELD_HTTP_ENABLED" c.enabled;
    addr = apply_env_string "GOSHIELD_HTTP_ADDR" c.addr;
    metrics_addr = apply_env_string "GOSHIELD_HTTP_METRICS_ADDR" c.metrics_addr;
  }

  unfoldable pub apply_env_overrides : Config F → Config F
  unfolding override_breaker override_adaptive override_retry override_rate_limiter override_timeout
      override_bulkhead override_metrics override_http
  apply_env_overrides c = record {
    circuit_breaker = map override_breaker c.circuit_breaker;
    adaptive = map override_adaptive c.adaptive;
    retry = map override_retry c.retry;
    rate_limiter = map override_rate_limiter c.rate_limiter;
    timeout = map override_timeout c.timeout;
    bulkhead = map override_bulkhead c.bulkhead;
    metrics = map override_metrics c.metrics;
    http = map override_http c.http;
  }
