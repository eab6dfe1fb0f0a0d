-- ===== src/Breaker/Config.antt =====
-- The states, configuration and defaults of the circuit breaker (internal/breaker/breaker.go).
use Prim.Native.String.{String}
use goshield_bootcamp.Base.{ℕ, ◌*◌, Bool, false, Option, none, ◌==◌, if◌then◌else◌}
use goshield_bootcamp.Base.Int.{pos, eqb_ℤ}
use goshield_bootcamp.Base.Go.{Duration, second, GoError}

pub data State : Type 0 where
  state_closed state_open state_half_open state_disabled state_forced_open : State

-- The values that `iota` gives.
abbrev pub state_code : State → ℕ
state_code state_closed = 0
state_code state_open = 1
state_code state_half_open = 2
state_code state_disabled = 3
state_code state_forced_open = 4

-- `a == b` on states.
abbrev pub same_state : State → State → Bool
same_state a b = state_code a == state_code b

pub data SlidingWindowType : Type 0 where
  sliding_window_count sliding_window_time : SlidingWindowType

-- Of `OnStateChange` only whether it is set matters: its calls are goroutines, kept as a trace.
pub record Config : Type 0 where
  pub name : String
  pub max_requests : ℕ
  pub interval : Duration
  pub timeout : Duration
  pub failure_rate_threshold : ℕ
  pub slow_call_rate_threshold : ℕ
  pub slow_call_duration : Duration
  pub minimum_number_of_calls : ℕ
  pub sliding_window_size : ℕ
  pub sliding_window_type : SlidingWindowType
  pub on_state_change : Bool
  pub is_successful : Option (Option GoError → Bool)

abbrev pub seconds : ℕ → Duration
seconds n = pos (n * second)

unfoldable pub default_config : String → Config
default_config name = record {
  name = name;
  max_requests = 1;
  interval = pos 0;
  timeout = seconds 60;
  failure_rate_threshold = 50;
  slow_call_rate_threshold = 100;
  slow_call_duration = pos 0;
  minimum_number_of_calls = 10;
  sliding_window_size = 100;
  sliding_window_type = sliding_window_count;
  on_state_change = false;
  is_successful = none;
}

-- `if x == 0 { x = d }`
abbrev pub or_default : ℕ → ℕ → ℕ
or_default d x = if x == 0 then d else x

-- The defaults that `New` puts in for fields that are 0.
unfoldable pub with_defaults : Config → Config
with_defaults c = record c {
  max_requests = or_default 1 c.max_requests;
  timeout = if eqb_ℤ c.timeout (pos 0) then seconds 60 else c.timeout;
  failure_rate_threshold = or_default 50 c.failure_rate_threshold;
  slow_call_rate_threshold = or_default 100 c.slow_call_rate_threshold;
  minimum_number_of_calls = or_default 10 c.minimum_number_of_calls;
  sliding_window_size = or_default 100 c.sliding_window_size;
}
