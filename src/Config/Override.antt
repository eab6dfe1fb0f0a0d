-- ===== src/Config/Override.antt =====
-- The overrides by the environment are idempotent (internal/config/config.go).
use mathlib.Core.Option.{map}
use Prim.Native.String.{String}
use goshield_bootcamp.Config.Environment.{
  override_bulkhead, override_http, override_timeout, override_metrics, override_adaptive,
  apply_env_string, apply_env_bool, override_rate_limiter, apply_env_overrides, override_retry,
  apply_env_float64, apply_env_uint32, Env, override_breaker, apply_env_int, apply_env_uint8,
  apply_env,
}
use goshield_bootcamp.Base.{refl, ap, none, some, ◌≡◌, Option, arith}
use goshield_bootcamp.Config.Types.{
  Config, MetricsConfig, TimeoutConfig, RateLimiterConfig, BulkheadConfig, HttpConfig,
  AdaptiveConfig, CircuitBreakerConfig, RetryConfig,
}

module _ {ℓ} {F : Type ℓ} (env : Env F) where
  -- One variable, applied twice, is applied once.
  apply_env_idem {κ} :
      {A : Type κ} (parse : String → Option A) (key : String) (a : A)
      → apply_env env parse key (apply_env env parse key a) ≡ apply_env env parse key a
  unfolding apply_env
  apply_env_idem parse key a = ground arith

  breaker_idem :
      (c : CircuitBreakerConfig)
      → override_breaker env (override_breaker env c) ≡ override_breaker env c
  unfolding override_breaker apply_env_int apply_env_uint8 apply_env_uint32
  breaker_idem c = simp (apply_env_idem)

  retry_idem :
      (c : RetryConfig F) → override_retry env (override_retry env c) ≡ override_retry env c
  unfolding override_retry apply_env_int apply_env_float64
  retry_idem c = simp (apply_env_idem)

  adaptive_idem :
      (c : AdaptiveConfig F)
      → override_adaptive env (override_adaptive env c) ≡ override_adaptive env c
  unfolding override_adaptive apply_env_int apply_env_float64
  adaptive_idem c = simp (apply_env_idem)

  rate_limiter_idem :
      (c : RateLimiterConfig F)
      → override_rate_limiter env (override_rate_limiter env c) ≡ override_rate_limiter env c
  unfolding override_rate_limiter apply_env_int apply_env_float64
  rate_limiter_idem c = simp (apply_env_idem)

  timeout_idem :
      (c : TimeoutConfig) → override_timeout env (override_timeout env c) ≡ override_timeout env c
  unfolding override_timeout apply_env_int
  timeout_idem c = simp (apply_env_idem)

  bulkhead_idem :
      (c : BulkheadConfig)
      → override_bulkhead env (override_bulkhead env c) ≡ override_bulkhead env c
  unfolding override_bulkhead apply_env_int
  bulkhead_idem c = simp (apply_env_idem)

  metrics_idem :
      (c : MetricsConfig) → override_metrics env (override_metrics env c) ≡ override_metrics env c
  unfolding override_metrics apply_env_bool apply_env_string
  metrics_idem c = simp (apply_env_idem)

  http_idem : (c : HttpConfig) → override_http env (override_http env c) ≡ override_http env c
  unfolding override_http apply_env_bool apply_env_string
  http_idem c = simp (apply_env_idem)

  map_idem {κ} :
      {A : Type κ} (f : A → A)
      → ((a : A) → f (f a) ≡ f a)
      → (o : Option A) → map f (map f o) ≡ map f o
  map_idem f h none = refl
  map_idem f h (some a) = ap (λ x. some x) (h a)

  -- Applying the environment's overrides twice is applying them once.
  pub apply_env_overrides_idem :
      (c : Config F)
      → apply_env_overrides env (apply_env_overrides env c) ≡ apply_env_overrides env c
  unfolding apply_env_overrides
  apply_env_overrides_idem c = simp (
    map_idem (override_breaker env) breaker_idem,
    map_idem (override_adaptive env) adaptive_idem,
    map_idem (override_retry env) retry_idem,
    map_idem (override_rate_limiter env) rate_limiter_idem,
    map_idem (override_timeout env) timeout_idem,
    map_idem (override_bulkhead env) bulkhead_idem,
    map_idem (override_metrics env) metrics_idem,
    map_idem (override_http env) http_idem,
  )
