-- ===== src/Breaker/Adaptive.antt =====
-- The adaptive breaker (internal/breaker/adaptive.go), around the circuit breaker. float64 is the
-- parameter `float`.
use goshield_bootcamp.Base.Go.{
  Cell, since, inc32, GoError, u32_mod, panicked, inc32_if, forced_open, too_many_requests,
  Duration, Outcome, Clock, Exit, Proc, Time, returned, open_state, is_err,
}
use goshield_bootcamp.Base.Float.{Float64}
use goshield_bootcamp.Base.Int.{◌+ℤ◌, pos, eqb_ℤ}
use goshield_bootcamp.Base.{
  ℕ, ◌+◌, ◌%◌, Bool, true, false, not, ◌&&◌, ◌||◌, Option, none, some, List, [], ◌∷◌, ltb, ◌==◌,
  if◌then◌else◌, leb,
}
use goshield_bootcamp.Breaker.Core.{CircuitBreaker, new}
use goshield_bootcamp.Breaker.Config.{state_open, same_state, State, Config}
use goshield_bootcamp.Breaker.Calls.{reset, force_open}
use goshield_bootcamp.Breaker.Execute.{execute}

pub record AdaptiveConfig {ℓ} (F : Type ℓ) : Type ℓ where
  pub base : Config
  pub failure_rate_ema_alpha : F
  pub latency_ema_alpha : F
  pub min_failure_rate_threshold : F
  pub max_failure_rate_threshold : F
  pub consecutive_failure_limit : ℕ
  pub slow_call_multiplier : F
  pub min_slow_call_duration : Duration
  pub max_slow_call_duration : Duration
  pub timeout_multiplier : F
  pub max_timeout : Duration

-- tripCount counts, once they have run, the callbacks that the inner breaker spawns with the new
-- state open, from the last Reset on: those of its trace less `trips_before`.
pub record AdaptiveBreaker {ℓ} (F : Type ℓ) : Type ℓ where
  pub config : AdaptiveConfig F
  pub inner : CircuitBreaker
  pub failure_rate_ema : F
  pub latency_ema : F
  pub ema_initialized : Bool
  pub consecutive_failures : ℕ
  pub trips_before : ℕ
  pub current_threshold : F
  pub window_successes : ℕ
  pub window_failures : ℕ
  pub window_latency : Duration
  pub window_calls : ℕ

abbrev pub trips_of : List (State × State) → ℕ
trips_of [] = 0
trips_of ((from, to) ∷ rest) = trips_of rest + (if same_state to state_open then 1 else 0)

-- `0` stands for a duration that is not set.
abbrev pub default_duration : Duration → Duration → Duration
default_duration d default = if eqb_ℤ d (pos 0) then default else d

module _ {ℓ} {F : Type ℓ} (float : Float64 F) where
  open float use {of_uint, of_int, literal, add, sub, mul, div, lt, le}

  -- `if x <= 0 { x = default }`
  abbrev pub default_positive : F → F → F
  default_positive x default = if le x (of_uint 0) then default else x

  -- `if alpha <= 0 || alpha > 1 { alpha = default }`
  abbrev pub default_alpha : F → F → F
  default_alpha x default = if le x (of_uint 0) || lt (of_uint 1) x then default else x

  unfoldable pub new_adaptive : AdaptiveConfig F → AdaptiveBreaker F
  unfolding new
  new_adaptive c = record {
    config = record c {
      failure_rate_ema_alpha = default_alpha c.failure_rate_ema_alpha (literal 5 10);
      latency_ema_alpha = default_alpha c.latency_ema_alpha (literal 3 10);
      min_failure_rate_threshold = default_positive c.min_failure_rate_threshold (of_uint 20);
      max_failure_rate_threshold = default_positive c.max_failure_rate_threshold (of_uint 80);
      min_slow_call_duration = default_duration c.min_slow_call_duration (pos 100000000);
      max_slow_call_duration = default_duration c.max_slow_call_duration (pos 30000000000);
      max_timeout = default_duration c.max_timeout (pos 300000000000);
    };
    inner = new (record c.base { on_state_change = true });
    failure_rate_ema = of_uint 0;
    latency_ema = of_uint 0;
    ema_initialized = false;
    consecutive_failures = 0;
    trips_before = 0;
    current_threshold = of_uint c.base.failure_rate_threshold;
    window_successes = 0;
    window_failures = 0;
    window_latency = pos 0;
    window_calls = 0;
  }

  -- The clamp at the end of adaptThreshold.
  abbrev pub clamp : F → F → F → F
  clamp low high x = let y = if lt x low then low else x in if lt high y then high else y

  unfoldable pub adapt_threshold : AdaptiveBreaker F → AdaptiveBreaker F
  adapt_threshold ab =
      let low = ab.config.min_failure_rate_threshold in
      let high = ab.config.max_failure_rate_threshold in
      let base = of_uint ab.config.base.failure_rate_threshold in
      let ema = ab.failure_rate_ema in
      let x =
        if lt ema low
        then add low (mul (sub base low) (literal 3 10))
        else if lt high ema
        then add base (mul (sub high base) (literal 5 10))
        else add base
            (mul (mul (sub high base) (div (sub ema low) (sub high low))) (literal 3 10)) in
      record ab { current_threshold = clamp low high x }

  -- `alpha*x + (1-alpha)*ema`, from the second update on.
  abbrev pub smooth : Bool → F → F → F → F
  smooth initialized alpha x ema =
      if initialized then add (mul alpha x) (mul (sub (of_uint 1) alpha) ema) else x

  unfoldable pub update_emas : AdaptiveBreaker F → AdaptiveBreaker F
  unfolding adapt_threshold
  update_emas ab =
      let total = (ab.window_successes + ab.window_failures) % u32_mod in
      let rate =
        if ltb 0 total
        then mul (div (of_uint ab.window_failures) (of_uint total)) (of_uint 100)
        else of_uint 0 in
      let latency = div (of_int ab.window_latency) (of_uint ab.window_calls) in
      if ab.window_calls == 0
      then ab
      else adapt_threshold (record ab {
        failure_rate_ema =
            smooth ab.ema_initialized ab.config.failure_rate_ema_alpha rate ab.failure_rate_ema;
        latency_ema = smooth ab.ema_initialized ab.config.latency_ema_alpha latency ab.latency_ema;
        ema_initialized = true;
        window_successes = 0;
        window_failures = 0;
        window_latency = pos 0;
        window_calls = 0;
      })

  unfoldable pub reset_adaptive : AdaptiveBreaker F → AdaptiveBreaker F
  unfolding reset
  reset_adaptive ab = record ab {
    consecutive_failures = 0;
    failure_rate_ema = of_uint 0;
    latency_ema = of_uint 0;
    ema_initialized = false;
    window_successes = 0;
    window_failures = 0;
    window_latency = pos 0;
    window_calls = 0;
    current_threshold = of_uint ab.config.base.failure_rate_threshold;
    trips_before = trips_of ab.inner.spawned;
    inner = reset ab.inner;
  }

-- `err == ErrOpenState || err == ErrTooManyRequests || err == ErrForcedOpen`
abbrev pub is_rejection : GoError → Bool
is_rejection open_state = true
is_rejection too_many_requests = true
is_rejection forced_open = true
is_rejection _ = false

module _ {ℓ} {F : Type ℓ} where
  unfoldable pub track_call : Duration → Option GoError → AdaptiveBreaker F → AdaptiveBreaker F
  unfolding ◌+ℤ◌
  track_call duration err ab =
      let failed = is_err err in
      record ab {
        consecutive_failures = if failed then inc32 ab.consecutive_failures else 0;
        window_failures = inc32_if failed ab.window_failures;
        window_successes = inc32_if (not failed) ab.window_successes;
        window_latency = ab.window_latency +ℤ duration;
        window_calls = inc32 ab.window_calls;
      }

  -- `consLimit > 0 && consFail >= consLimit`
  abbrev pub is_exceeded : AdaptiveBreaker F → Bool
  is_exceeded ab =
      ltb 0 ab.config.consecutive_failure_limit
      && leb ab.config.consecutive_failure_limit ab.consecutive_failures

abbrev pub is_rejected : Option GoError → Bool
is_rejected none = false
is_rejected (some e) = is_rejection e

-- Where the inner breaker lives.
abbrev pub inner_cell {ℓ κ} :
    {F : Type ℓ} {S : Type κ} → Cell S (AdaptiveBreaker F) → Cell S CircuitBreaker
inner_cell cell = record {
  get = λ s. (cell.get s).inner;
  put = λ cb s. cell.put (record (cell.get s) { inner = cb }) s;
}

module _ {ℓ κ μ} {F : Type ℓ} (float : Float64 F) {S : Type κ} {A : Type μ}
    (cell : Cell S (AdaptiveBreaker F)) (clock : Clock S) where
  -- After a call of the inner breaker.
  unfoldable pub track : Time → Exit S (Outcome A) → Exit S (Outcome A)
  unfolding track_call
  track began (panicked s) = panicked s
  track began (returned (v, err) s) =
      let (ended, s') = clock s in
      if is_rejected err
      then returned (v, err) s'
      else returned (v, err) (cell.put (track_call (since ended began) err (cell.get s')) s')

  unfoldable pub execute_adaptive : Proc S (Outcome A) → Proc S (Outcome A)
  unfolding execute force_open track
  execute_adaptive fn s =
      let ab = cell.get s in
      let (began, s₁) = clock s in
      if is_exceeded ab
      then returned (none, some open_state) (cell.put (record ab { inner = force_open ab.inner }) s)
      else track began (execute float (inner_cell cell) clock fn s₁)
