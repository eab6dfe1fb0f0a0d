-- ===== src/Examples/Breaker.antt =====
-- The circuit breaker at concrete inputs.
use goshield_bootcamp.Breaker.Totals.{
  ledger_of, enter_op, wrapped, totals, empty_ledger, run-ledger_of,
}
use goshield_bootcamp.Examples.Fixed.{fixed-IsRatio, fixed, fixed-IsMonotone}
use goshield_bootcamp.Base.Go.{Clock, Proc, Outcome, returned, other, forced_open, open_state, Cell}
use goshield_bootcamp.Base.Int.{pos, ltb_ℤ}
use goshield_bootcamp.Breaker.Notify.{step-told, Edge}
use goshield_bootcamp.Breaker.Trip.{trips_monotone}
use goshield_bootcamp.Breaker.Core.{record_result, new, CircuitBreaker}
use goshield_bootcamp.Breaker.Window.{window_decides_nothing}
use goshield_bootcamp.Breaker.Invariant.{FitsWords, new-IsValid, Succeeds, IsValid, run-IsValid}
use goshield_bootcamp.Breaker.Config.{
  with_defaults, Config, state_open, state_half_open, sliding_window_time, state_forced_open,
  default_config,
}
use goshield_bootcamp.Breaker.Calls.{rate, force_open, trips}
use goshield_bootcamp.Breaker.Forced.{forced_open_stays}
use goshield_bootcamp.Breaker.Trace.{step, Op, answers, run}
use goshield_bootcamp.Breaker.HalfOpen.{probes, probes-le}
use goshield_bootcamp.Base.{
  ℕ, ◌+◌, ◌≤◌, ◌≡◌, refl, true, none, some, List, [], ◌∷◌, arith, replicate,
}

abbrev config : Config
config = record (default_config "api") {
  minimum_number_of_calls = 2;
  max_requests = 1;
  on_state_change = true;
}

config-FitsWords : FitsWords config
unfolding default_config
config-FitsWords = record { requests = omega arith }

fresh : CircuitBreaker
unfolding new default_config
fresh = new config

fresh-IsValid : IsValid fresh
unfolding fresh
fresh-IsValid = new-IsValid config config-FitsWords

-- Two failures, then a probe after the timeout.
abbrev trip_history : List Op
trip_history =
    Op.before 1
    ∷ Op.after 5 (some (other 7)) (pos 4)
    ∷ Op.before 6
    ∷ Op.after 8 (some (other 7)) (pos 2)
    ∷ Op.before 9
    ∷ []

trip_answers : answers fixed trip_history fresh ≡ none ∷ none ∷ some open_state ∷ []
unfolding fresh answers step rate trips record_result
trip_answers = refl

run-IsValid_example : Succeeds (run fixed trip_history (new config))
run-IsValid_example = run-IsValid fixed config config-FitsWords trip_history

window_decides_nothing_example :
    answers fixed trip_history
      (new (record config { sliding_window_size = 1; sliding_window_type = sliding_window_time }))
    ≡ answers fixed trip_history (new config)
window_decides_nothing_example =
    window_decides_nothing fixed config 1 sliding_window_time config-FitsWords trip_history

half_open : CircuitBreaker
unfolding fresh
half_open = record fresh { state = state_half_open; half_open_allowed = 1 }

half_open-IsValid : IsValid half_open
unfolding half_open
half_open-IsValid = ground (arith, fresh-IsValid)

abbrev two_probes : List Op
two_probes = Op.before 10 ∷ Op.before 11 ∷ []

probes-le_example :
    probes fixed two_probes half_open + half_open.half_open_count ≤ half_open.half_open_allowed
unfolding half_open
probes-le_example = probes-le fixed two_probes half_open half_open-IsValid refl

exhausted : CircuitBreaker
unfolding half_open
exhausted = record half_open { half_open_count = 1 }

forced : CircuitBreaker
unfolding force_open
forced = force_open fresh

forced_open_stays_example :
    (answers fixed two_probes forced ≡ replicate 2 (some forced_open))
    × ((cb : CircuitBreaker) × (run fixed two_probes forced ≡ some cb)
        × (cb.state ≡ state_forced_open))
unfolding forced fresh
forced_open_stays_example = forced_open_stays fixed two_probes forced (tt, (tt, tt)) refl

failing : CircuitBreaker
unfolding fresh
failing = record fresh { total_calls = 4; failures = 4 }

half_failing : CircuitBreaker
unfolding fresh
half_failing = record fresh { total_calls = 4; failures = 2; successes = 2 }

trips_monotone_example :
    (trips fixed (record half_failing { failures = 3; successes = 1; slow_calls = 1 }) ≡ true)
    × (trips fixed (record half_failing { failures = 0; successes = 4; slow_calls = 4 })
        ≡ ltb_ℤ (pos 0) half_failing.config.slow_call_duration)
unfolding half_failing trips fresh
trips_monotone_example =
    trips_monotone fixed fixed-IsMonotone fixed-IsRatio half_failing 3 1 1 (omega arith)
      (omega arith) (omega arith) (omega arith) (omega arith) (omega arith) (omega arith)
      (omega arith) (omega arith) refl

opened : CircuitBreaker
unfolding fresh
opened = record fresh { state = state_open; open_since = 8 }

step-told_example :
    Edge Op.forces state_open state_forced_open
    × ((force_open opened).spawned ≡ (state_open, state_forced_open) ∷ [])
unfolding opened step
step-told_example =
    step-told fixed Op.forces opened (force_open opened) (ground (arith, fresh-IsValid)) refl refl

-- The program's state is the breaker itself, and its clock stands at 9.
abbrev only : Cell CircuitBreaker CircuitBreaker
only = record { get = λ s. s; put = λ a s. a }

abbrev at_nine : Clock CircuitBreaker
at_nine s = (9, s)

abbrev ok_call : Proc CircuitBreaker (Outcome ℕ)
ok_call s = returned (some 5, none) s

abbrev ending : CircuitBreaker
ending = (run-IsValid fixed config config-FitsWords trip_history).0

run-ledger_of_example :
    totals ending
    ≡ wrapped (with_defaults config) (ledger_of (with_defaults config) trip_history empty_ledger)
run-ledger_of_example =
    run-ledger_of fixed config trip_history ending
      (run-IsValid fixed config config-FitsWords trip_history).1

-- Two failures, and nothing else.
trip_ledger :
    ledger_of config trip_history empty_ledger
    ≡ record { failed = 2; succeeded = 0; slow = 0; rejected = 0 }
unfolding ledger_of enter_op default_config
trip_ledger = refl
