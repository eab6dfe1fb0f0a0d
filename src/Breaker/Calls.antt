-- ===== src/Breaker/Calls.antt =====
-- What follows a call, the remaining methods of the circuit breaker, and `Execute`
-- (internal/breaker/breaker.go). float64 is the parameter `float`.
use goshield_bootcamp.Base.{
  ℕ, Bool, true, false, not, ◌&&◌, Option, none, some, ltb, ◌==◌, if◌then◌else◌,
}
use goshield_bootcamp.Base.Int.{pos, ltb_ℤ}
use goshield_bootcamp.Base.Go.{Time, Duration, inc64, inc64_if, is_err, GoError}
use goshield_bootcamp.Base.Float.{Float64}
use goshield_bootcamp.Breaker.Config.{
  State, state_closed, state_open, state_half_open, state_forced_open, same_state, Config,
}
use goshield_bootcamp.Breaker.Core.{
  CircuitBreaker, clear_window, notify, get_state_unsafe, record_result, transition_to,
  check_half_open_success,
}

-- `isFailure` and `isSlow` of `afterCall`.
abbrev pub failed_by : Option (Option GoError → Bool) → Option GoError → Bool
failed_by none err = is_err err
failed_by (some is_successful) err = not (is_successful err)

abbrev pub is_slow : Config → Duration → Bool
is_slow c duration =
    if ltb_ℤ (pos 0) c.slow_call_duration then ltb_ℤ c.slow_call_duration duration else false

unfoldable pub count_totals : Bool → Bool → CircuitBreaker → CircuitBreaker
count_totals failed slow cb = record cb {
  total_calls_all = inc64 cb.total_calls_all;
  total_failures = inc64_if failed cb.total_failures;
  total_successes = inc64_if (not failed) cb.total_successes;
  total_slow_calls = inc64_if slow cb.total_slow_calls;
}

unfoldable pub reset : CircuitBreaker → CircuitBreaker
unfolding clear_window notify
reset cb =
    let cleared = clear_window (record cb { state = state_closed; half_open_count = 0 }) in
    if same_state cb.state state_closed then cleared else notify cb.state state_closed cleared

unfoldable pub force_open : CircuitBreaker → CircuitBreaker
unfolding notify
force_open cb =
    let forced = record cb { state = state_forced_open } in
    if same_state cb.state state_forced_open
    then forced
    else notify cb.state state_forced_open forced

-- `cb.totalRejected++` of `Execute`, made outside the mutex.
unfoldable pub reject : CircuitBreaker → CircuitBreaker
reject cb = record cb { total_rejected = inc64 cb.total_rejected }

pub record Metrics {ℓ} (F : Type ℓ) : Type ℓ where
  pub failure_rate : F
  pub slow_call_rate : F
  pub total_calls : ℕ
  pub total_successes : ℕ
  pub total_failures : ℕ
  pub total_rejected : ℕ
  pub total_slow_calls : ℕ
  pub state_transitions : ℕ
  pub state : State

module _ {ℓ} {F : Type ℓ} (float : Float64 F) where
  open float use {of_uint, mul, div, le}

  -- `float64(part) / float64(total) * 100`
  unfoldable pub rate : ℕ → ℕ → F
  rate part total = mul (div (of_uint part) (of_uint total)) (of_uint 100)

  -- The tests of `checkThresholds`: does the window trip the breaker?
  unfoldable pub trips : CircuitBreaker → Bool
  unfolding rate
  trips cb =
      if ltb cb.total_calls cb.config.minimum_number_of_calls
      then false
      else if ltb_ℤ (pos 0) cb.config.slow_call_duration
          && le (of_uint cb.config.slow_call_rate_threshold) (rate cb.slow_calls cb.total_calls)
      then true
      else le (of_uint cb.config.failure_rate_threshold) (rate cb.failures cb.total_calls)

  unfoldable pub check_thresholds : Time → CircuitBreaker → CircuitBreaker
  unfolding transition_to
  check_thresholds now cb = if trips cb then transition_to now state_open cb else cb

  -- The `switch` of `afterCall`.
  unfoldable pub settle : State → Time → Bool → Bool → CircuitBreaker → Option CircuitBreaker
  unfolding check_thresholds check_half_open_success transition_to
  settle state_closed now failed slow cb = elim (record_result now failed slow cb) [
    | none ↦ none
    | some cb' ↦ some (check_thresholds now cb')
  ]
  settle state_half_open now failed slow cb = elim (record_result now failed slow cb) [
    | none ↦ none
    | some cb' ↦
        some (if failed then transition_to now state_open cb' else check_half_open_success now cb')
  ]
  settle _ now failed slow cb = some cb

  unfoldable pub after_call :
      Time → Option GoError → Duration → CircuitBreaker → Option CircuitBreaker
  unfolding count_totals get_state_unsafe settle
  after_call now err duration cb =
      let failed = failed_by cb.config.is_successful err in
      let slow = is_slow cb.config duration in
      let cb' = get_state_unsafe now (count_totals failed slow cb) in
      settle cb'.state now failed slow cb'

  -- `GetMetrics` makes the lazy transition too, since it reads the state.
  unfoldable pub get_metrics : Time → CircuitBreaker → Metrics F × CircuitBreaker
  unfolding get_state_unsafe rate
  get_metrics now cb =
      let cb' = get_state_unsafe now cb in
      let idle = cb'.total_calls == 0 in
      (
        record {
          failure_rate = if idle then of_uint 0 else rate cb'.failures cb'.total_calls;
          slow_call_rate = if idle then of_uint 0 else rate cb'.slow_calls cb'.total_calls;
          total_calls = cb'.total_calls;
          total_successes = cb'.total_successes;
          total_failures = cb'.total_failures;
          total_rejected = cb'.total_rejected;
          total_slow_calls = cb'.total_slow_calls;
          state_transitions = cb'.state_transitions;
          state = cb'.state;
        },
        cb',
      )
