-- ===== src/Config/Presets.antt =====
-- The defaults and the presets pass the validation, and what a valid configuration is in force
-- (internal/config/config.go).
use goshield_bootcamp.Config.Durations.{max_wait_duration, of_milliseconds, timeout_duration}
use goshield_bootcamp.Config.Validate.{validate}
use goshield_bootcamp.Base.Go.{millisecond}
use goshield_bootcamp.Base.Float.{Float64}
use goshield_bootcamp.Base.Int.{*ℤ-pos, pos_part, wrap64_small, leb_ℤ, pos}
use goshield_bootcamp.Bulkhead.Core.{new, Config as BulkheadSettings}
use goshield_bootcamp.Base.{ℕ, ◌*◌, ◌^◌, ◌≤◌, ◌<◌, ◌≡◌, Bool, false, none, some, arith, leb, ltb}
use goshield_bootcamp.Config.Types.{RateLimiterConfig, Config, TimeoutConfig, BulkheadConfig}
use goshield_bootcamp.Config.Defaults.{
  preset_conservative, preset, preset_aggressive, tenths, default_config,
}
use goshield_bootcamp.Config.Validity.{validate-IsValid, IsValid}

-- The bulkhead's own configuration, of the settings.
abbrev pub bulkhead_config : BulkheadConfig → Bool → BulkheadSettings
bulkhead_config b refused = record {
  max_concurrent = b.max_concurrent;
  max_wait_duration = max_wait_duration b;
  on_call_rejected = refused;
}

module _ {ℓ} {F : Type ℓ} (float : Float64 F) where
  open float use {lt, le, of_uint}

  -- float64 orders short decimal fractions and small integers as they are ordered.
  pub record IsDecimal : Type ℓ where
    pub lt-uint : (m n : ℕ) → m ≤ 1000 → n ≤ 100 → lt (tenths float m) (of_uint n) ≡ ltb m (n * 10)
    pub uint-lt : (m n : ℕ) → m ≤ 1000 → n ≤ 100 → lt (of_uint n) (tenths float m) ≡ ltb (n * 10) m
    pub lt-lt : (m n : ℕ) → m ≤ 1000 → n ≤ 1000 → lt (tenths float m) (tenths float n) ≡ ltb m n
    pub le-zero : (m : ℕ) → m ≤ 5000 → le (tenths float m) (of_uint 0) ≡ leb m 0

  default_config-IsValid : IsDecimal → IsValid float (default_config float)
  unfolding default_config
  default_config-IsValid d = ground (
    arith,
    d.lt-uint 5 0 (omega arith) (omega arith),
    d.lt-uint 3 0 (omega arith) (omega arith),
    d.lt-uint 200 0 (omega arith) (omega arith),
    d.lt-uint 800 0 (omega arith) (omega arith),
    d.uint-lt 5 1 (omega arith) (omega arith),
    d.uint-lt 3 1 (omega arith) (omega arith),
    d.uint-lt 200 100 (omega arith) (omega arith),
    d.uint-lt 800 100 (omega arith) (omega arith),
    d.lt-lt 800 200 (omega arith) (omega arith),
    d.lt-uint 20 1 (omega arith) (omega arith),
    d.le-zero 1000 (omega arith),
  )

  -- A preset differs from the default in settings that it leaves in their ranges.
  preset-IsValid :
      IsDecimal
      → (failure_rate slow_rate minimum_calls open_seconds retries interval rate burst duration
          concurrent : ℕ)
      → failure_rate ≤ 100
      → slow_rate ≤ 100
      → 0 < open_seconds
      → 0 < interval
      → 0 < rate
      → rate ≤ 500
      → 0 < burst
      → 0 < duration
      → 0 < concurrent
      → IsValid float (
          preset float failure_rate slow_rate minimum_calls open_seconds retries interval rate burst
            duration concurrent)
  unfolding preset default_config
  preset-IsValid d fr sr mc os rs iv rate bu du co h₁ h₂ h₃ h₄ h₅ h₆ h₇ h₈ h₉ =
      let v = default_config-IsValid d in ground (arith, v, d.le-zero (rate * 10) (omega arith))

  -- The default configuration and both presets pass the validation, for a float64 that orders the
  -- decimal fractions in them as they are ordered.
  pub validate-presets :
      IsDecimal
      → (validate float (default_config float) ≡ none)
        × (validate float (preset_conservative float) ≡ none)
        × (validate float (preset_aggressive float) ≡ none)
  unfolding preset_conservative preset_aggressive
  validate-presets d = (
    (validate-IsValid float (default_config float)).1 (default_config-IsValid d),
    (validate-IsValid float (preset_conservative float)).1 (
        preset-IsValid d 30 50 5 30 5 500 50 100 3000 5 (omega arith) (omega arith) (omega arith)
          (omega arith) (omega arith) (omega arith) (omega arith) (omega arith) (omega arith)),
    (validate-IsValid float (preset_aggressive float)).1 (
        preset-IsValid d 80 100 20 120 2 2000 500 1000 10000 50 (omega arith) (omega arith)
          (omega arith) (omega arith) (omega arith) (omega arith) (omega arith) (omega arith)
          (omega arith)),
  )

  -- In a configuration that passes the validation, a timeout whose nanoseconds fit an int64 is
  -- positive, so that timeout.Execute does not run the function without it, and a bulkhead with the
  -- configured capacity keeps it.
  pub validate_in_force :
      (c : Config F) (t : TimeoutConfig) (b : BulkheadConfig) (refused : Bool)
      → validate float c ≡ none
      → c.timeout ≡ some t
      → c.bulkhead ≡ some b
      → pos_part t.duration_ms * millisecond < 2 ^ 63
      → (leb_ℤ (timeout_duration t) (pos 0) ≡ false)
        × ((new (bulkhead_config b refused)).config.max_concurrent ≡ b.max_concurrent)
  unfolding of_milliseconds new
  validate_in_force c t b refused valid et eb fits =
      let v = (validate-IsValid float c).0 valid in
      let n = pos_part t.duration_ms in
      ground (arith, v, *ℤ-pos n millisecond, wrap64_small (n * millisecond) fits)

  -- A rate of which `<= 0` does not hold, as it does not hold of one that is not a number, passes
  -- the validation in place of any other rate of a configuration that passes it.
  pub nan_rate_passes :
      (c : Config F) (rl : RateLimiterConfig F) (nan : F)
      → (le nan (of_uint 0) ≡ false)
      → c.rate_limiter ≡ some rl
      → validate float c ≡ none
      → validate float (record c { rate_limiter = some (record rl { rate = nan }) }) ≡ none
  nan_rate_passes c rl nan h e valid =
      let v = (validate-IsValid float c).0 valid in
      (validate-IsValid float (record c { rate_limiter = some (record rl { rate = nan }) })).1
        (ground (arith, v))
