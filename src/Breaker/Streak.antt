-- ===== src/Breaker/Streak.antt =====
-- A streak of failed calls of a new circuit breaker (internal/breaker/breaker.go).
pub mod Opens
use goshield_bootcamp.Base.Go.{Time, Duration, GoError, open_state, since, u32_mod}
use goshield_bootcamp.Base.Float.{Float64, IsRatio}
use goshield_bootcamp.Base.Int.{pos, ◌≤ℤ◌, leb_ℤ}
use goshield_bootcamp.Base.{
  ℕ, suc, ◌+◌, ◌≤◌, ◌<◌, ◌≡◌, Bool, true, false, none, some, List, [], ◌∷◌, ◌++◌, arith, length,
  ◌∙◌, ap, replicate, length-set, length-replicate,
}
use goshield_bootcamp.Breaker.Config.{Config, with_defaults, state_closed, state_open}
use goshield_bootcamp.Breaker.Core.{
  CircuitBreaker, is_count, new, before_call, get_state_unsafe, record_result, count_result,
  transition_to, CallResult, put_result, zero_result,
}
use goshield_bootcamp.Breaker.Calls.{after_call, check_thresholds, count_totals, settle}
use goshield_bootcamp.Breaker.Trace.{Op, run, answers, step}
use goshield_bootcamp.Breaker.Trip.{trips_extremes}

-- A configuration that counts errors, and no slow calls.
pub record CountsErrors (c : Config) : Type 0 where
  pub plain : c.is_successful ≡ none
  pub none_slow : c.slow_call_duration ≤ℤ pos 0
  pub minimum : 0 < c.minimum_number_of_calls
  pub words : c.minimum_number_of_calls < u32_mod
  pub threshold : 0 < c.failure_rate_threshold
  pub percent : c.failure_rate_threshold ≤ 100

-- After `n` calls, all of which failed.
pub record IsStreak (n : ℕ) (c : Config) (cb : CircuitBreaker) : Type 0 where
  pub same : cb.config ≡ c
  pub closed : cb.state ≡ state_closed
  pub calls : cb.total_calls ≡ n
  pub failed : cb.failures ≡ n
  pub sized : 0 < c.sliding_window_size
  pub ring : is_count c.sliding_window_type ≡ true → length cb.ring_buffer ≡ c.sliding_window_size
  pub index : is_count c.sliding_window_type ≡ true → cb.ring_index < c.sliding_window_size

abbrev failure : Time → CallResult
failure now = record { success = false; slow = false; time = now }

-- What the window is after one more failure.
abbrev pub recorded : Time → CircuitBreaker → CircuitBreaker
unfolding count_result put_result
recorded now cb = count_result true false (elim (is_count cb.config.sliding_window_type) [
  | true ↦ put_result (failure now) cb
  | false ↦ cb
])

record_result-recorded :
    (n : ℕ) (c : Config) (now : Time) (cb : CircuitBreaker)
    → IsStreak n c cb
    → record_result now true false cb ≡ some (recorded now cb)
unfolding record_result
record_result-recorded n c now cb s = ground (arith, s.ring, s.index)

pub recorded-IsStreak :
    (n : ℕ) (c : Config) (now : Time) (cb : CircuitBreaker)
    → n + 1 < u32_mod
    → IsStreak n c cb
    → IsStreak (n + 1) c (recorded now cb)
unfolding count_result put_result
recorded-IsStreak n c now cb w s =
    ground (arith, s.ring, s.index, length-set cb.ring_buffer cb.ring_index (failure now))

pub count_totals-IsStreak :
    (n : ℕ) (c : Config) (failed slow : Bool) (cb : CircuitBreaker)
    → IsStreak n c cb
    → IsStreak n c (count_totals failed slow cb)
unfolding count_totals
count_totals-IsStreak n c failed slow cb s = ground (arith, s.ring, s.index)

-- Tripped at the reading `now`.
pub record IsOpen (now : Time) (c : Config) (cb : CircuitBreaker) : Type 0 where
  pub same : cb.config ≡ c
  pub opened : cb.state ≡ state_open
  pub moment : cb.open_since ≡ now

transition_to-IsOpen :
    (n : ℕ) (c : Config) (now : Time) (cb : CircuitBreaker)
    → IsStreak n c cb
    → IsOpen now c (transition_to now state_open cb)
unfolding transition_to
transition_to-IsOpen n c now cb s = ground arith

module _ {ℓ} {F : Type ℓ} (float : Float64 F) where
  abbrev pub after_failure : Time → CircuitBreaker → CircuitBreaker
  after_failure now cb = check_thresholds float now (recorded now (count_totals true false cb))

  pub after_call-failure :
      (n : ℕ) (c : Config) (now : Time) (e : GoError) (d : Duration) (cb : CircuitBreaker)
      → CountsErrors c
      → IsStreak n c cb
      → after_call float now (some e) d cb ≡ some (after_failure now cb)
  unfolding after_call get_state_unsafe settle
  after_call-failure n c now e d cb k s = ground (
    arith,
    record_result-recorded n c now (count_totals true false cb)
        (count_totals-IsStreak n c true false cb s),
  )

  pub check_thresholds-IsStreak :
      IsRatio float
      → (n : ℕ) (c : Config) (now : Time) (cb : CircuitBreaker) → CountsErrors c
      → IsStreak n c cb
      → n < u32_mod
      → (n < c.minimum_number_of_calls → IsStreak n c (check_thresholds float now cb))
        × (n ≡ c.minimum_number_of_calls → IsOpen now c (check_thresholds float now cb))
  unfolding check_thresholds
  check_thresholds-IsStreak r n c now cb k s w =
      let (few, none', enough) =
        trips_extremes float r cb (ground arith) (ground arith) (ground arith) (ground arith)
          (ground arith) in
      (
        λ h. rw (few (ground arith), check_thresholds) s,
        λ h.
            rw (enough (ground arith) (ground arith), check_thresholds)
              (transition_to-IsOpen n c now cb s),
      )
