-- ===== src/Config/Defaults.antt =====
-- The default settings and the presets (internal/config/config.go). The numbers of float64 are
use goshield_bootcamp.Base.Float.{Float64}
use goshield_bootcamp.Base.Int.{pos}
use goshield_bootcamp.Base.{ℕ, ◌*◌, true, some}
use mathlib.Core.Option.{map}
use goshield_bootcamp.Config.Types.{
  Config, RetryConfig, RateLimiterConfig, TimeoutConfig, CircuitBreakerConfig, BulkheadConfig,
}

-- written in tenths.

module _ {ℓ} {F : Type ℓ} (float : Float64 F) where
  open float use {literal}

  abbrev pub tenths : ℕ → F
  tenths n = literal n 10

  unfoldable pub default_config : Config F
  default_config = record {
    circuit_breaker = some (record {
      name = "default";
      max_requests = 1;
      timeout_seconds = pos 60;
      failure_rate_threshold = 50;
      slow_call_rate_threshold = 100;
      slow_call_duration_ms = pos 0;
      minimum_number_of_calls = 10;
      sliding_window_size = 100;
      sliding_window_type = "count";
    });
    adaptive = some (record {
      name = "adaptive";
      failure_rate_ema_alpha = tenths 5;
      latency_ema_alpha = tenths 3;
      min_adaptive_threshold = tenths 200;
      max_adaptive_threshold = tenths 800;
      consecutive_failure_limit = pos 5;
      slow_call_multiplier = tenths 30;
      min_slow_call_duration_ms = pos 100;
      max_slow_call_duration_ms = pos 5000;
      timeout_multiplier = tenths 20;
      max_timeout_seconds = pos 300;
      timeout_seconds = pos 60;
      failure_rate_threshold = 50;
      slow_call_rate_threshold = 100;
      minimum_number_of_calls = 10;
      max_requests = 1;
    });
    retry = some (record {
      max_retries = pos 3;
      strategy = "exponential";
      interval_ms = pos 1000;
      max_interval_ms = pos 30000;
      multiplier = tenths 20;
      max_duration_ms = pos 60000;
    });
    rate_limiter = some (record { kind = "token_bucket"; rate = tenths 1000; burst = pos 200 });
    timeout = some (record { duration_ms = pos 5000 });
    bulkhead = some (record { max_concurrent = pos 10; max_wait_duration_ms = pos 5000 });
    metrics = some (record { enabled = true; namespace = "goshield"; endpoint = "/metrics" });
    http = some (record { enabled = true; addr = ":8080"; metrics_addr = ":9090" });
  }

  -- The assignments that the presets make, in the order of their parameters.
  unfoldable pub preset : ℕ → ℕ → ℕ → ℕ → ℕ → ℕ → ℕ → ℕ → ℕ → ℕ → Config F
  unfolding default_config
  preset failure_rate slow_rate minimum_calls open_seconds retries interval rate burst duration
        concurrent =
      let c = default_config in
      record c {
        circuit_breaker =
            map
              (λ (b : CircuitBreakerConfig). record b {
                failure_rate_threshold = failure_rate;
                slow_call_rate_threshold = slow_rate;
                minimum_number_of_calls = minimum_calls;
                timeout_seconds = pos open_seconds;
              })
              c.circuit_breaker;
        retry =
            map
              (λ (r : RetryConfig F). record r {
                max_retries = pos retries;
                interval_ms = pos interval;
              })
              c.retry;
        rate_limiter =
            map
              (λ (l : RateLimiterConfig F). record l {
                rate = tenths (rate * 10);
                burst = pos burst;
              })
              c.rate_limiter;
        timeout = map (λ (t : TimeoutConfig). record t { duration_ms = pos duration }) c.timeout;
        bulkhead =
            map (λ (b : BulkheadConfig). record b { max_concurrent = pos concurrent }) c.bulkhead;
      }

  unfoldable pub preset_conservative : Config F
  unfolding preset
  preset_conservative = preset 30 50 5 30 5 500 50 100 3000 5

  unfoldable pub preset_aggressive : Config F
  unfolding preset
  preset_aggressive = preset 80 100 20 120 2 2000 500 1000 10000 50
