-- ===== src/Breaker/Trip.antt =====
-- When the failure rate of the window trips a closed circuit breaker (internal/breaker/breaker.go).
use goshield_bootcamp.Base.Go.{u32_mod}
use goshield_bootcamp.Base.Float.{IsRatio, IsMonotone, Float64}
use goshield_bootcamp.Base.Int.{◌≤ℤ◌, ltb_ℤ, pos}
use goshield_bootcamp.Breaker.Core.{CircuitBreaker}
use goshield_bootcamp.Breaker.Calls.{trips, rate}
use goshield_bootcamp.Base.{ℕ, ◌+◌, ◌≤◌, ◌<◌, ◌≡◌, true, false, arith}

module _ {ℓ} {F : Type ℓ} (float : Float64 F) where
  rate_full : IsRatio float → (n : ℕ) → 0 < n → n < u32_mod → rate float n n ≡ float.of_uint 100
  unfolding rate
  rate_full r n h w = rw (r.div_self n h w, rate) (r.one-mul 100 (omega arith))

  rate_none : IsRatio float → (n : ℕ) → 0 < n → n < u32_mod → rate float 0 n ≡ float.of_uint 0
  unfolding rate
  rate_none r n h w = rw (r.zero-div n h w, rate) (r.zero-mul 100 (omega arith))

  -- With no slow-call rule and both the minimum number of calls and the failure rate threshold
  -- above 0, the threshold at most 100, a window of fewer calls than the minimum does not trip the
  -- breaker, nor does one without a failure, and one of the minimum number of calls or more, all of
  -- which failed, does.
  pub trips_extremes :
      IsRatio float
      → (cb : CircuitBreaker) → cb.total_calls < u32_mod
      → cb.config.slow_call_duration ≤ℤ pos 0
      → 0 < cb.config.minimum_number_of_calls
      → 0 < cb.config.failure_rate_threshold
      → cb.config.failure_rate_threshold ≤ 100
      → (cb.total_calls < cb.config.minimum_number_of_calls → trips float cb ≡ false)
        × (cb.failures ≡ 0 → trips float cb ≡ false)
        × (cb.config.minimum_number_of_calls ≤ cb.total_calls
            → cb.failures ≡ cb.total_calls
            → trips float cb ≡ true)
  unfolding trips
  trips_extremes r cb w none_slow m t t' =
      let low = r.of_uint-le cb.config.failure_rate_threshold 0 (omega arith) (omega arith) in
      let high = r.of_uint-le cb.config.failure_rate_threshold 100 (omega arith) (omega arith) in
      (
        λ few. ground arith,
        λ no_failure. ground (arith, low, rate_none r cb.total_calls),
        λ enough all. ground (arith, high, rate_full r cb.total_calls),
      )

  rate_mono :
      IsMonotone float
      → (m n k : ℕ) → m ≤ n
      → n < u32_mod
      → 0 < k
      → k < u32_mod
      → float.le (rate float m k) (rate float n k) ≡ true
  unfolding rate
  rate_mono r m n k h w p w' =
      r.mul_mono _ _ 100 (omega arith) (omega arith) (r.div_mono m n k h w p w')

  slow_trips :
      IsRatio float
      → (cb : CircuitBreaker) → 0 < cb.total_calls
      → cb.total_calls < u32_mod
      → cb.config.minimum_number_of_calls ≤ cb.total_calls
      → 0 < cb.config.failure_rate_threshold
      → cb.config.failure_rate_threshold < u32_mod
      → cb.config.slow_call_rate_threshold ≤ 100
      → trips float
          (record cb { failures = 0; successes = cb.total_calls; slow_calls = cb.total_calls })
        ≡ ltb_ℤ (pos 0) cb.config.slow_call_duration
  unfolding trips
  slow_trips r cb some' w enough f f' t =
      let low = r.of_uint-le cb.config.failure_rate_threshold 0 f' (omega arith) in
      let high = r.of_uint-le cb.config.slow_call_rate_threshold 100 (omega arith) (omega arith) in
      ground (arith, low, high, rate_none r cb.total_calls, rate_full r cb.total_calls)

  worse_trips :
      IsMonotone float
      → (cb : CircuitBreaker) (failures successes slow_calls : ℕ)
      → 0 < cb.config.minimum_number_of_calls
      → cb.total_calls < u32_mod
      → failures < u32_mod
      → slow_calls < u32_mod
      → cb.failures ≤ failures
      → cb.slow_calls ≤ slow_calls
      → trips float cb ≡ true
      → trips float
          (record cb { failures = failures; successes = successes; slow_calls = slow_calls })
        ≡ true
  unfolding trips
  worse_trips r cb failures successes slow_calls m w wf ws f s h = ground (
    arith,
    rate_mono r cb.failures failures cb.total_calls f,
    rate_mono r cb.slow_calls slow_calls cb.total_calls s,
    r.le_trans (float.of_uint cb.config.failure_rate_threshold)
        (rate float cb.failures cb.total_calls) (rate float failures cb.total_calls),
    r.le_trans (float.of_uint cb.config.slow_call_rate_threshold)
        (rate float cb.slow_calls cb.total_calls) (rate float slow_calls cb.total_calls),
  )

  trips_enough :
      (cb : CircuitBreaker)
      → trips float cb ≡ true
      → cb.config.minimum_number_of_calls ≤ cb.total_calls
  unfolding trips
  trips_enough cb h = ground arith

  -- With a float64 that divides and rounds as the laws say, a minimum number of calls above 0, a
  -- failure rate threshold above 0 and one for slow calls of at most 100: a window that trips the
  -- breaker still does with some of its successes made failures and more of its calls slow; and
  -- with none of its calls failed and all of them slow, it trips exactly if slow calls are counted.
  pub trips_monotone :
      IsMonotone float
      → IsRatio float
      → (cb : CircuitBreaker) (failures successes slow_calls : ℕ)
      → 0 < cb.config.minimum_number_of_calls
      → 0 < cb.config.failure_rate_threshold
      → cb.config.failure_rate_threshold < u32_mod
      → cb.config.slow_call_rate_threshold ≤ 100
      → cb.total_calls < u32_mod
      → failures + successes ≡ cb.total_calls
      → slow_calls ≤ cb.total_calls
      → cb.failures ≤ failures
      → cb.slow_calls ≤ slow_calls
      → trips float cb ≡ true
      → (trips float
            (record cb { failures = failures; successes = successes; slow_calls = slow_calls })
          ≡ true)
        × (trips float
              (record cb { failures = 0; successes = cb.total_calls; slow_calls = cb.total_calls })
            ≡ ltb_ℤ (pos 0) cb.config.slow_call_duration)
  trips_monotone m r cb failures successes slow_calls some' f f' t w sum slow more more_slow h = (
    worse_trips m cb failures successes slow_calls some' w (omega arith) (omega arith) more
        more_slow h,
    slow_trips r cb (omega (arith, trips_enough cb h)) w (trips_enough cb h) f f' t,
  )
