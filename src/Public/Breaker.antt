-- ===== src/Public/Breaker.antt =====
-- The public circuit breaker (pkg/breaker/breaker.go): its configuration, the breaker that it makes
-- of one, and its methods, which those of the internal breaker answer.
use Prim.Native.String.{String}
use goshield_bootcamp.Base.Go.{Outcome, Duration, Time, GoError, Cell, Clock, Proc}
use goshield_bootcamp.Base.Float.{Float64}
use goshield_bootcamp.Base.{ℕ, ◌≡◌, refl, Bool, false, Option, none}
use goshield_bootcamp.Breaker.Config.{SlidingWindowType, State, Config, default_config}
use goshield_bootcamp.Breaker.Core.{get_state_unsafe, CircuitBreaker, new}
use goshield_bootcamp.Breaker.Calls.{force_open, reset, get_metrics, Metrics}
use goshield_bootcamp.Breaker.Execute.{execute}

-- `Config`, with the fields of the internal one.
pub record PublicConfig : Type 0 where
  pub name : String
  pub max_requests : ℕ
  pub interval : Duration
  pub timeout : Duration
  pub failure_rate_threshold : ℕ
  pub slow_call_rate_threshold : ℕ
  pub slow_call_duration : Duration
  pub minimum_number_of_calls : ℕ
  pub sliding_window_size : ℕ
  pub sliding_window_type : SlidingWindowType
  pub on_state_change : Bool
  pub is_successful : Option (Option GoError → Bool)

-- The internal configuration that `New` fills.
unfoldable pub internal_config : PublicConfig → Config
internal_config c = record {
  name = c.name;
  max_requests = c.max_requests;
  interval = c.interval;
  timeout = c.timeout;
  failure_rate_threshold = c.failure_rate_threshold;
  slow_call_rate_threshold = c.slow_call_rate_threshold;
  slow_call_duration = c.slow_call_duration;
  minimum_number_of_calls = c.minimum_number_of_calls;
  sliding_window_size = c.sliding_window_size;
  sliding_window_type = c.sliding_window_type;
  on_state_change = c.on_state_change;
  is_successful = c.is_successful;
}

-- The public breaker holds the internal one.
pub record PublicBreaker : Type 0 where
  pub internal : CircuitBreaker

unfoldable pub new_public : PublicConfig → PublicBreaker
unfolding internal_config new
new_public c = record { internal = new (internal_config c) }

-- `DefaultConfig`, which leaves the two callbacks nil.
unfoldable pub public_default_config : String → PublicConfig
unfolding default_config
public_default_config name =
    let c = default_config name in
    record {
      name = c.name;
      max_requests = c.max_requests;
      interval = c.interval;
      timeout = c.timeout;
      failure_rate_threshold = c.failure_rate_threshold;
      slow_call_rate_threshold = c.slow_call_rate_threshold;
      slow_call_duration = c.slow_call_duration;
      minimum_number_of_calls = c.minimum_number_of_calls;
      sliding_window_size = c.sliding_window_size;
      sliding_window_type = c.sliding_window_type;
      on_state_change = false;
      is_successful = none;
    }

-- `Name`
abbrev pub public_name : PublicBreaker → String
public_name b = b.internal.config.name

-- `State`, which may make the lazy transition.
unfoldable pub public_state : Time → PublicBreaker → State × PublicBreaker
unfolding get_state_unsafe
public_state now b =
    let cb = get_state_unsafe now b.internal in (cb.state, record { internal = cb })

unfoldable pub public_reset : PublicBreaker → PublicBreaker
unfolding reset
public_reset b = record { internal = reset b.internal }

unfoldable pub public_force_open : PublicBreaker → PublicBreaker
unfolding force_open
public_force_open b = record { internal = force_open b.internal }

-- Where the internal breaker of a public one lives.
abbrev pub internal_cell {ℓ} : {S : Type ℓ} → Cell S PublicBreaker → Cell S CircuitBreaker
internal_cell cell = record {
  get = λ s. (cell.get s).internal;
  put = λ cb s. cell.put (record { internal = cb }) s;
}

module _ {ℓ κ μ} {F : Type ℓ} (float : Float64 F) {S : Type κ} {A : Type μ} where
  unfoldable pub public_execute :
      Cell S PublicBreaker → Clock S → Proc S (Outcome A) → Proc S (Outcome A)
  unfolding execute
  public_execute cell clock fn = execute float (internal_cell cell) clock fn

module _ {ℓ} {F : Type ℓ} (float : Float64 F) where
  unfoldable pub public_get_metrics : Time → PublicBreaker → Metrics F × PublicBreaker
  unfolding get_metrics
  public_get_metrics now b =
      let (m, cb) = get_metrics float now b.internal in (m, record { internal = cb })

-- The configuration goes to the internal package and back without a loss: the public breaker of the
-- default configuration is the internal breaker of the internal default configuration.
internal_config-public_default_config :
    (name : String) → internal_config (public_default_config name) ≡ default_config name
unfolding internal_config public_default_config default_config
internal_config-public_default_config name = refl
