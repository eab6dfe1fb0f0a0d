-- ===== src/Config/Tags/Breakers.antt =====
-- The tags of the settings of the two breakers (internal/config/config.go).
use goshield_bootcamp.Config.Tags.{
  Value, word, whole, natural, real, Members, find, word_of, whole_of, natural_of, real_of,
}
use goshield_bootcamp.Config.Types.{CircuitBreakerConfig, AdaptiveConfig}
use goshield_bootcamp.Base.Int.{pos}
use goshield_bootcamp.Base.{◌≡◌, refl, [], ◌∷◌}

module _ {ℓ} {F : Type ℓ} where
  unfoldable pub write_breaker : CircuitBreakerConfig → Members (Value F)
  write_breaker c =
      ("name", word c.name)
      ∷ ("max_requests", natural c.max_requests)
      ∷ ("timeout_seconds", whole c.timeout_seconds)
      ∷ ("failure_rate_threshold", natural c.failure_rate_threshold)
      ∷ ("slow_call_rate_threshold", natural c.slow_call_rate_threshold)
      ∷ ("slow_call_duration_ms", whole c.slow_call_duration_ms)
      ∷ ("minimum_number_of_calls", natural c.minimum_number_of_calls)
      ∷ ("sliding_window_size", natural c.sliding_window_size)
      ∷ ("sliding_window_type", word c.sliding_window_type)
      ∷ []

  unfoldable pub read_breaker : Members (Value F) → CircuitBreakerConfig → CircuitBreakerConfig
  read_breaker ms c = record {
    name = word_of (find "name" ms) c.name;
    max_requests = natural_of (find "max_requests" ms) c.max_requests;
    timeout_seconds = whole_of (find "timeout_seconds" ms) c.timeout_seconds;
    failure_rate_threshold = natural_of (find "failure_rate_threshold" ms) c.failure_rate_threshold;
    slow_call_rate_threshold =
        natural_of (find "slow_call_rate_threshold" ms) c.slow_call_rate_threshold;
    slow_call_duration_ms = whole_of (find "slow_call_duration_ms" ms) c.slow_call_duration_ms;
    minimum_number_of_calls =
        natural_of (find "minimum_number_of_calls" ms) c.minimum_number_of_calls;
    sliding_window_size = natural_of (find "sliding_window_size" ms) c.sliding_window_size;
    sliding_window_type = word_of (find "sliding_window_type" ms) c.sliding_window_type;
  }

  unfoldable pub write_adaptive : AdaptiveConfig F → Members (Value F)
  write_adaptive c =
      ("name", word c.name)
      ∷ ("failure_rate_ema_alpha", real c.failure_rate_ema_alpha)
      ∷ ("latency_ema_alpha", real c.latency_ema_alpha)
      ∷ ("min_adaptive_threshold", real c.min_adaptive_threshold)
      ∷ ("max_adaptive_threshold", real c.max_adaptive_threshold)
      ∷ ("consecutive_failure_limit", whole c.consecutive_failure_limit)
      ∷ ("slow_call_multiplier", real c.slow_call_multiplier)
      ∷ ("min_slow_call_duration_ms", whole c.min_slow_call_duration_ms)
      ∷ ("max_slow_call_duration_ms", whole c.max_slow_call_duration_ms)
      ∷ ("timeout_multiplier", real c.timeout_multiplier)
      ∷ ("max_timeout_seconds", whole c.max_timeout_seconds)
      ∷ ("timeout_seconds", whole c.timeout_seconds)
      ∷ ("failure_rate_threshold", natural c.failure_rate_threshold)
      ∷ ("slow_call_rate_threshold", natural c.slow_call_rate_threshold)
      ∷ ("minimum_number_of_calls", natural c.minimum_number_of_calls)
      ∷ ("max_requests", natural c.max_requests)
      ∷ []

  unfoldable pub read_adaptive : Members (Value F) → AdaptiveConfig F → AdaptiveConfig F
  read_adaptive ms c = record {
    name = word_of (find "name" ms) c.name;
    failure_rate_ema_alpha = real_of (find "failure_rate_ema_alpha" ms) c.failure_rate_ema_alpha;
    latency_ema_alpha = real_of (find "latency_ema_alpha" ms) c.latency_ema_alpha;
    min_adaptive_threshold = real_of (find "min_adaptive_threshold" ms) c.min_adaptive_threshold;
    max_adaptive_threshold = real_of (find "max_adaptive_threshold" ms) c.max_adaptive_threshold;
    consecutive_failure_limit =
        whole_of (find "consecutive_failure_limit" ms) c.consecutive_failure_limit;
    slow_call_multiplier = real_of (find "slow_call_multiplier" ms) c.slow_call_multiplier;
    min_slow_call_duration_ms =
        whole_of (find "min_slow_call_duration_ms" ms) c.min_slow_call_duration_ms;
    max_slow_call_duration_ms =
        whole_of (find "max_slow_call_duration_ms" ms) c.max_slow_call_duration_ms;
    timeout_multiplier = real_of (find "timeout_multiplier" ms) c.timeout_multiplier;
    max_timeout_seconds = whole_of (find "max_timeout_seconds" ms) c.max_timeout_seconds;
    timeout_seconds = whole_of (find "timeout_seconds" ms) c.timeout_seconds;
    failure_rate_threshold = natural_of (find "failure_rate_threshold" ms) c.failure_rate_threshold;
    slow_call_rate_threshold =
        natural_of (find "slow_call_rate_threshold" ms) c.slow_call_rate_threshold;
    minimum_number_of_calls =
        natural_of (find "minimum_number_of_calls" ms) c.minimum_number_of_calls;
    max_requests = natural_of (find "max_requests" ms) c.max_requests;
  }

module _ {ℓ} (F : Type ℓ) where
  pub read-write_breaker :
      (c base : CircuitBreakerConfig) → read_breaker {F = F} (write_breaker c) base ≡ c
  unfolding read_breaker write_breaker
  read-write_breaker c base = refl

  pub read-write_adaptive :
      (c base : AdaptiveConfig F) → read_adaptive {F = F} (write_adaptive c) base ≡ c
  unfolding read_adaptive write_adaptive
  read-write_adaptive c base = refl

module _ {ℓ} {F : Type ℓ} (zero_float : F) where
  abbrev pub zero_breaker : CircuitBreakerConfig
  zero_breaker = record {
    name = "";
    max_requests = 0;
    timeout_seconds = pos 0;
    failure_rate_threshold = 0;
    slow_call_rate_threshold = 0;
    slow_call_duration_ms = pos 0;
    minimum_number_of_calls = 0;
    sliding_window_size = 0;
    sliding_window_type = "";
  }

  abbrev pub zero_adaptive : AdaptiveConfig F
  zero_adaptive = record {
    name = "";
    failure_rate_ema_alpha = zero_float;
    latency_ema_alpha = zero_float;
    min_adaptive_threshold = zero_float;
    max_adaptive_threshold = zero_float;
    consecutive_failure_limit = pos 0;
    slow_call_multiplier = zero_float;
    min_slow_call_duration_ms = pos 0;
    max_slow_call_duration_ms = pos 0;
    timeout_multiplier = zero_float;
    max_timeout_seconds = pos 0;
    timeout_seconds = pos 0;
    failure_rate_threshold = 0;
    slow_call_rate_threshold = 0;
    minimum_number_of_calls = 0;
    max_requests = 0;
  }
