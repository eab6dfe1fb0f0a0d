-- ===== src/Breaker/Core.antt =====
-- The operations of the circuit breaker that hold its mutex (internal/breaker/breaker.go). Each
-- takes the reading of the clock in its critical section. A result `none` is a run-time panic.
use goshield_bootcamp.Base.{
  ℕ, ◌+◌, ◌%◌, Bool, true, false, not, ◌&&◌, Option, none, some, List, [], ◌∷◌, ltb, leb, ◌==◌,
  length, set, replicate, if◌then◌else◌,
}
use goshield_bootcamp.Base.Int.{leb_ℤ}
use goshield_bootcamp.Base.Go.{
  Time, since, inc32, inc64, inc32_if, GoError, open_state, too_many_requests, forced_open,
}
use goshield_bootcamp.Breaker.Config.{
  State, state_closed, state_open, state_half_open, state_disabled, state_forced_open, same_state,
  SlidingWindowType, sliding_window_count, sliding_window_time, Config, with_defaults,
}

pub record CallResult : Type 0 where
  pub success : Bool
  pub slow : Bool
  pub time : Time

abbrev pub zero_result : CallResult
zero_result = record { success = false; slow = false; time = 0 }

-- `spawned` is the trace of `go OnStateChange(name, from, to)`, newest first.
pub record CircuitBreaker : Type 0 where
  pub config : Config
  pub state : State
  pub successes : ℕ
  pub failures : ℕ
  pub slow_calls : ℕ
  pub total_calls : ℕ
  pub ring_buffer : List CallResult
  pub ring_index : ℕ
  pub ring_full : Bool
  pub half_open_allowed : ℕ
  pub half_open_count : ℕ
  pub open_since : Time
  pub total_successes : ℕ
  pub total_failures : ℕ
  pub total_rejected : ℕ
  pub total_slow_calls : ℕ
  pub total_calls_all : ℕ
  pub state_transitions : ℕ
  pub spawned : List (State × State)

-- `config.SlidingWindowType == SlidingWindowCount`
abbrev pub is_count : SlidingWindowType → Bool
is_count sliding_window_count = true
is_count sliding_window_time = false

abbrev pub make_ring : Config → List CallResult
make_ring c = replicate c.sliding_window_size zero_result

unfoldable pub new : Config → CircuitBreaker
unfolding with_defaults
new config =
    let c = with_defaults config in
    record {
      config = c;
      state = state_closed;
      successes = 0;
      failures = 0;
      slow_calls = 0;
      total_calls = 0;
      ring_buffer = if is_count c.sliding_window_type then make_ring c else [];
      ring_index = 0;
      ring_full = false;
      half_open_allowed = 0;
      half_open_count = 0;
      open_since = 0;
      total_successes = 0;
      total_failures = 0;
      total_rejected = 0;
      total_slow_calls = 0;
      total_calls_all = 0;
      state_transitions = 0;
      spawned = [];
    }

-- The window counters back to 0, and with a count window a new ring buffer.
unfoldable pub clear_window : CircuitBreaker → CircuitBreaker
clear_window cb =
    let by_count = is_count cb.config.sliding_window_type in
    record cb {
      total_calls = 0;
      successes = 0;
      failures = 0;
      slow_calls = 0;
      ring_buffer = if by_count then make_ring cb.config else cb.ring_buffer;
      ring_index = if by_count then 0 else cb.ring_index;
      ring_full = if by_count then false else cb.ring_full;
    }

-- `go cb.config.OnStateChange(name, from, to)`, if the callback is set.
unfoldable pub notify : State → State → CircuitBreaker → CircuitBreaker
notify from to cb = record cb {
  spawned = if cb.config.on_state_change then (from, to) ∷ cb.spawned else cb.spawned;
}

-- `getStateUnsafe`: the state that it returns is the field `state` of the result.
unfoldable pub get_state_unsafe : Time → CircuitBreaker → CircuitBreaker
unfolding clear_window
get_state_unsafe now cb =
    if same_state cb.state state_open && leb_ℤ cb.config.timeout (since now cb.open_since)
    then clear_window (record cb {
      state = state_half_open;
      half_open_allowed = cb.config.max_requests;
      half_open_count = 0;
    })
    else cb

-- The `switch` of `beforeCall`; the last case is `default`.
unfoldable pub admit : State → CircuitBreaker → Option GoError × CircuitBreaker
admit state_closed cb = (none, cb)
admit state_half_open cb =
    if leb cb.half_open_allowed cb.half_open_count
    then (some too_many_requests, cb)
    else (none, record cb { half_open_count = inc32 cb.half_open_count })
admit state_open cb = (some open_state, cb)
admit state_forced_open cb = (some forced_open, cb)
admit state_disabled cb = (none, cb)

unfoldable pub before_call : Time → CircuitBreaker → Option GoError × CircuitBreaker
unfolding get_state_unsafe admit
before_call now cb = let cb' = get_state_unsafe now cb in admit cb'.state cb'

unfoldable pub put_result : CallResult → CircuitBreaker → CircuitBreaker
put_result r cb =
    let next = (cb.ring_index + 1) % length cb.ring_buffer in
    record cb {
      ring_buffer = set cb.ring_buffer cb.ring_index r;
      ring_index = next;
      ring_full = if next == 0 then true else cb.ring_full;
    }

-- The write to the ring buffer: an index out of range is a panic.
unfoldable pub write_ring : CallResult → CircuitBreaker → Option CircuitBreaker
unfolding put_result
write_ring r cb = if ltb cb.ring_index (length cb.ring_buffer) then some (put_result r cb) else none

unfoldable pub count_result : Bool → Bool → CircuitBreaker → CircuitBreaker
count_result is_failure is_slow cb = record cb {
  total_calls = inc32 cb.total_calls;
  failures = inc32_if is_failure cb.failures;
  successes = inc32_if (not is_failure) cb.successes;
  slow_calls = inc32_if is_slow cb.slow_calls;
}

unfoldable pub record_result : Time → Bool → Bool → CircuitBreaker → Option CircuitBreaker
unfolding write_ring count_result
record_result now is_failure is_slow cb =
    let result : CallResult = record { success = not is_failure; slow = is_slow; time = now } in
    if is_count cb.config.sliding_window_type
    then elim (write_ring result cb) [
      | none ↦ none
      | some cb' ↦ some (count_result is_failure is_slow cb')
    ]
    else some (count_result is_failure is_slow cb)

-- The `switch newState` of `transitionTo`.
unfoldable pub enter : State → Time → CircuitBreaker → CircuitBreaker
enter state_open now cb = record cb { open_since = now }
enter state_half_open now cb = record cb {
  half_open_allowed = cb.config.max_requests;
  half_open_count = 0;
}
enter _ now cb = cb

unfoldable pub transition_to : Time → State → CircuitBreaker → CircuitBreaker
unfolding clear_window enter notify
transition_to now to cb =
    if same_state cb.state to
    then cb
    else notify cb.state to (
        enter to now
          (clear_window (record cb { state = to; state_transitions = inc64 cb.state_transitions })))

unfoldable pub check_half_open_success : Time → CircuitBreaker → CircuitBreaker
unfolding transition_to
check_half_open_success now cb =
    if leb cb.half_open_allowed cb.total_calls then transition_to now state_closed cb else cb
