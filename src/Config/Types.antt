-- ===== src/Config/Types.antt =====
-- The settings (internal/config/config.go). A pointer is an Option; float64 is the parameter `F`.
use goshield_bootcamp.Base.Int.{ℤ}
use goshield_bootcamp.Base.{ℕ, Bool, Option}
use Prim.Native.String.{String}

pub record CircuitBreakerConfig : Type 0 where
  pub name : String
  pub max_requests : ℕ
  pub timeout_seconds : ℤ
  pub failure_rate_threshold : ℕ
  pub slow_call_rate_threshold : ℕ
  pub slow_call_duration_ms : ℤ
  pub minimum_number_of_calls : ℕ
  pub sliding_window_size : ℕ
  pub sliding_window_type : String

pub record AdaptiveConfig {ℓ} (F : Type ℓ) : Type ℓ where
  pub name : String
  pub failure_rate_ema_alpha : F
  pub latency_ema_alpha : F
  pub min_adaptive_threshold : F
  pub max_adaptive_threshold : F
  pub consecutive_failure_limit : ℤ
  pub slow_call_multiplier : F
  pub min_slow_call_duration_ms : ℤ
  pub max_slow_call_duration_ms : ℤ
  pub timeout_multiplier : F
  pub max_timeout_seconds : ℤ
  pub timeout_seconds : ℤ
  pub failure_rate_threshold : ℕ
  pub slow_call_rate_threshold : ℕ
  pub minimum_number_of_calls : ℕ
  pub max_requests : ℕ

pub record RetryConfig {ℓ} (F : Type ℓ) : Type ℓ where
  pub max_retries : ℤ
  pub strategy : String
  pub interval_ms : ℤ
  pub max_interval_ms : ℤ
  pub multiplier : F
  pub max_duration_ms : ℤ

pub record RateLimiterConfig {ℓ} (F : Type ℓ) : Type ℓ where
  pub kind : String
  pub rate : F
  pub burst : ℤ

pub record TimeoutConfig : Type 0 where
  pub duration_ms : ℤ

pub record BulkheadConfig : Type 0 where
  pub max_concurrent : ℤ
  pub max_wait_duration_ms : ℤ

pub record MetricsConfig : Type 0 where
  pub enabled : Bool
  pub namespace : String
  pub endpoint : String

pub record HttpConfig : Type 0 where
  pub enabled : Bool
  pub addr : String
  pub metrics_addr : String

pub record Config {ℓ} (F : Type ℓ) : Type ℓ where
  pub circuit_breaker : Option CircuitBreakerConfig
  pub adaptive : Option (AdaptiveConfig F)
  pub retry : Option (RetryConfig F)
  pub rate_limiter : Option (RateLimiterConfig F)
  pub timeout : Option TimeoutConfig
  pub bulkhead : Option BulkheadConfig
  pub metrics : Option MetricsConfig
  pub http : Option HttpConfig
