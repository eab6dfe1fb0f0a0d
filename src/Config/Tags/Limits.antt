-- ===== src/Config/Tags/Limits.antt =====
-- The tags of the settings of the other patterns (internal/config/config.go).
use goshield_bootcamp.Config.Tags.{
  Value, word, whole, real, Members, find, word_of, whole_of, real_of,
}
use goshield_bootcamp.Config.Types.{RetryConfig, RateLimiterConfig, TimeoutConfig, BulkheadConfig}
use goshield_bootcamp.Base.Int.{pos}
use goshield_bootcamp.Base.{◌≡◌, refl, [], ◌∷◌}

module _ {ℓ} {F : Type ℓ} where
  unfoldable pub write_retry : RetryConfig F → Members (Value F)
  write_retry c =
      ("max_retries", whole c.max_retries)
      ∷ ("strategy", word c.strategy)
      ∷ ("interval_ms", whole c.interval_ms)
      ∷ ("max_interval_ms", whole c.max_interval_ms)
      ∷ ("multiplier", real c.multiplier)
      ∷ ("max_duration_ms", whole c.max_duration_ms)
      ∷ []

  unfoldable pub read_retry : Members (Value F) → RetryConfig F → RetryConfig F
  read_retry ms c = record {
    max_retries = whole_of (find "max_retries" ms) c.max_retries;
    strategy = word_of (find "strategy" ms) c.strategy;
    interval_ms = whole_of (find "interval_ms" ms) c.interval_ms;
    max_interval_ms = whole_of (find "max_interval_ms" ms) c.max_interval_ms;
    multiplier = real_of (find "multiplier" ms) c.multiplier;
    max_duration_ms = whole_of (find "max_duration_ms" ms) c.max_duration_ms;
  }

  unfoldable pub write_limiter : RateLimiterConfig F → Members (Value F)
  write_limiter c = ("type", word c.kind) ∷ ("rate", real c.rate) ∷ ("burst", whole c.burst) ∷ []

  unfoldable pub read_limiter : Members (Value F) → RateLimiterConfig F → RateLimiterConfig F
  read_limiter ms c = record {
    kind = word_of (find "type" ms) c.kind;
    rate = real_of (find "rate" ms) c.rate;
    burst = whole_of (find "burst" ms) c.burst;
  }

  unfoldable pub write_timeout : TimeoutConfig → Members (Value F)
  write_timeout c = ("duration_ms", whole c.duration_ms) ∷ []

  unfoldable pub read_timeout : Members (Value F) → TimeoutConfig → TimeoutConfig
  read_timeout ms c = record { duration_ms = whole_of (find "duration_ms" ms) c.duration_ms }

  unfoldable pub write_bulkhead : BulkheadConfig → Members (Value F)
  write_bulkhead c =
      ("max_concurrent", whole c.max_concurrent)
      ∷ ("max_wait_duration_ms", whole c.max_wait_duration_ms)
      ∷ []

  unfoldable pub read_bulkhead : Members (Value F) → BulkheadConfig → BulkheadConfig
  read_bulkhead ms c = record {
    max_concurrent = whole_of (find "max_concurrent" ms) c.max_concurrent;
    max_wait_duration_ms = whole_of (find "max_wait_duration_ms" ms) c.max_wait_duration_ms;
  }

module _ {ℓ} (F : Type ℓ) where
  pub read-write_retry : (c base : RetryConfig F) → read_retry {F = F} (write_retry c) base ≡ c
  unfolding read_retry write_retry
  read-write_retry c base = refl

  pub read-write_limiter :
      (c base : RateLimiterConfig F) → read_limiter {F = F} (write_limiter c) base ≡ c
  unfolding read_limiter write_limiter
  read-write_limiter c base = refl

  pub read-write_timeout :
      (c base : TimeoutConfig) → read_timeout {F = F} (write_timeout c) base ≡ c
  unfolding read_timeout write_timeout
  read-write_timeout c base = refl

  pub read-write_bulkhead :
      (c base : BulkheadConfig) → read_bulkhead {F = F} (write_bulkhead c) base ≡ c
  unfolding read_bulkhead write_bulkhead
  read-write_bulkhead c base = refl

module _ {ℓ} {F : Type ℓ} (zero_float : F) where
  abbrev pub zero_retry : RetryConfig F
  zero_retry = record {
    max_retries = pos 0;
    strategy = "";
    interval_ms = pos 0;
    max_interval_ms = pos 0;
    multiplier = zero_float;
    max_duration_ms = pos 0;
  }

  abbrev pub zero_limiter : RateLimiterConfig F
  zero_limiter = record { kind = ""; rate = zero_float; burst = pos 0 }

  abbrev pub zero_timeout : TimeoutConfig
  zero_timeout = record { duration_ms = pos 0 }

  abbrev pub zero_bulkhead : BulkheadConfig
  zero_bulkhead = record { max_concurrent = pos 0; max_wait_duration_ms = pos 0 }
