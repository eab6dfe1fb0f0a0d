-- ===== src/Breaker/Params.antt =====
-- What an adaptive breaker reports of itself (internal/breaker/adaptive.go): GetAdaptiveParams,
-- with the bounds of the durations that it computes, and the default configuration.
use Prim.Native.String.{String}
use goshield_bootcamp.Base.Go.{Duration, u32_mod}
use goshield_bootcamp.Base.Float.{Float64}
use goshield_bootcamp.Base.Int.{ltb_ℤ, pos, ◌≤ℤ◌}
use goshield_bootcamp.Breaker.Adaptive.{AdaptiveBreaker, trips_of, AdaptiveConfig}
use goshield_bootcamp.Breaker.Config.{default_config}
use goshield_bootcamp.Base.{
  inl, inr, Bool-cases, ℕ, ◌-◌, ◌%◌, ◌≡◌, ◌⊎◌, Bool, true, ◌&&◌, arith, ltb, if◌then◌else◌,
}

pub record AdaptiveParams {ℓ} (F : Type ℓ) : Type ℓ where
  pub failure_rate_ema : F
  pub latency_ema : Duration
  pub adaptive_threshold : F
  pub consecutive_failures : ℕ
  pub trip_count : ℕ
  pub effective_timeout : Duration
  pub effective_slow_call : Duration

-- `TripCount`
unfoldable pub trip_count {ℓ} : {F : Type ℓ} → AdaptiveBreaker F → ℕ
trip_count ab = (trips_of ab.inner.spawned - ab.trips_before) % u32_mod

-- `if d > high { d = high }` and `if d < low { d = low }`
abbrev pub at_most : Duration → Duration → Duration
at_most high d = if ltb_ℤ high d then high else d

abbrev pub at_least : Duration → Duration → Duration
at_least low d = if ltb_ℤ d low then low else d

at_most-le : (high d : Duration) → at_most high d ≤ℤ high
at_most-le high d = ground arith

at_least-le : (low high d : Duration) → low ≤ℤ high → low ≤ℤ at_most high (at_least low d)
at_least-le low high d h = ground arith

module _ {ℓ} {F : Type ℓ} (float : Float64 F) where
  open float use {of_uint, of_int, literal, mul, pow, lt, to_int}

  unfoldable pub default_adaptive_config : String → AdaptiveConfig F
  unfolding default_config
  default_adaptive_config name = record {
    base = default_config name;
    failure_rate_ema_alpha = literal 5 10;
    latency_ema_alpha = literal 3 10;
    min_failure_rate_threshold = of_uint 20;
    max_failure_rate_threshold = of_uint 80;
    consecutive_failure_limit = 0;
    slow_call_multiplier = of_uint 0;
    min_slow_call_duration = pos 100000000;
    max_slow_call_duration = pos 30000000000;
    timeout_multiplier = of_uint 0;
    max_timeout = pos 300000000000;
  }

  -- `config.TimeoutMultiplier > 0 && trips > 0`
  abbrev pub is_stretched : AdaptiveBreaker F → Bool
  is_stretched ab = lt (of_uint 0) ab.config.timeout_multiplier && ltb 0 (trip_count ab)

  unfoldable pub effective_timeout_of : AdaptiveBreaker F → Duration
  unfolding trip_count
  effective_timeout_of ab =
      let multiplier = pow ab.config.timeout_multiplier (of_uint (trip_count ab - 1)) in
      if is_stretched ab
      then at_most ab.config.max_timeout (to_int (mul (of_int ab.config.base.timeout) multiplier))
      else ab.config.base.timeout

  -- Without a multiplier the field keeps its zero value.
  unfoldable pub effective_slow_call_of : AdaptiveBreaker F → Duration
  effective_slow_call_of ab =
      if lt (of_uint 0) ab.config.slow_call_multiplier
      then at_most ab.config.max_slow_call_duration (
          at_least ab.config.min_slow_call_duration
            (to_int (mul ab.latency_ema ab.config.slow_call_multiplier)))
      else pos 0

  unfoldable pub get_adaptive_params : AdaptiveBreaker F → AdaptiveParams F
  unfolding effective_timeout_of effective_slow_call_of trip_count
  get_adaptive_params ab = record {
    failure_rate_ema = ab.failure_rate_ema;
    latency_ema = to_int ab.latency_ema;
    adaptive_threshold = ab.current_threshold;
    consecutive_failures = ab.consecutive_failures;
    trip_count = trip_count ab;
    effective_timeout = effective_timeout_of ab;
    effective_slow_call = effective_slow_call_of ab;
  }

  effective_timeout_of-cases :
      (ab : AdaptiveBreaker F)
      → (is_stretched ab ≡ true) × (effective_timeout_of ab ≤ℤ ab.config.max_timeout)
        ⊎ (effective_timeout_of ab ≡ ab.config.base.timeout)
  unfolding effective_timeout_of
  effective_timeout_of-cases ab = elim (Bool-cases (is_stretched ab)) [
    | inl on ↦ inl (on, rw on (at_most-le ab.config.max_timeout _))
    | inr off ↦ inr (rw off)
  ]

  effective_slow_call_of-cases :
      (ab : AdaptiveBreaker F)
      → ab.config.min_slow_call_duration ≤ℤ ab.config.max_slow_call_duration
      → (lt (of_uint 0) ab.config.slow_call_multiplier ≡ true)
          × (ab.config.min_slow_call_duration ≤ℤ effective_slow_call_of ab)
          × (effective_slow_call_of ab ≤ℤ ab.config.max_slow_call_duration)
        ⊎ (effective_slow_call_of ab ≡ pos 0)
  unfolding effective_slow_call_of
  effective_slow_call_of-cases ab h =
      let low = ab.config.min_slow_call_duration in
      let high = ab.config.max_slow_call_duration in
      let d = to_int (mul ab.latency_ema ab.config.slow_call_multiplier) in
      elim (Bool-cases (lt (of_uint 0) ab.config.slow_call_multiplier)) [
        | inl on ↦
            inl (on, rw on (at_least-le low high d h), rw on (at_most-le high (at_least low d)))
        | inr off ↦ inr (rw off)
      ]

  -- Where the multiplier of the timeout is in force and the breaker has tripped, the reported
  -- timeout is at most the maximum; elsewhere it is the configured one. Where the multiplier of the
  -- slow calls is in force, the reported duration lies between its two limits, if these are in
  -- order; elsewhere it is 0.
  pub get_adaptive_params-bounds :
      (ab : AdaptiveBreaker F)
      → ab.config.min_slow_call_duration ≤ℤ ab.config.max_slow_call_duration
      → ((is_stretched ab ≡ true)
            × ((get_adaptive_params ab).effective_timeout ≤ℤ ab.config.max_timeout)
          ⊎ ((get_adaptive_params ab).effective_timeout ≡ ab.config.base.timeout))
        × ((lt (of_uint 0) ab.config.slow_call_multiplier ≡ true)
              × (ab.config.min_slow_call_duration ≤ℤ (get_adaptive_params ab).effective_slow_call)
              × ((get_adaptive_params ab).effective_slow_call ≤ℤ ab.config.max_slow_call_duration)
            ⊎ ((get_adaptive_params ab).effective_slow_call ≡ pos 0))
  unfolding get_adaptive_params
  get_adaptive_params-bounds ab h =
      (effective_timeout_of-cases ab, effective_slow_call_of-cases ab h)
