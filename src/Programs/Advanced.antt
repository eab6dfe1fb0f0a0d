-- ===== src/Programs/Advanced.antt =====
-- The advanced example (examples/advanced/main.go), over any state of the program in which its
-- objects have their cells. The draws of math/rand and the sleeps are parameters; a value that a
-- service returns is the time that it is stamped with.
use goshield_bootcamp.Programs.Compose.{is_canceled}
use goshield_bootcamp.Programs.Literals.{
  no_breaker_config, bulkhead_literal, retry_literal, repeat, act, discard, ◌>>◌,
}
use goshield_bootcamp.Public.Runs.{exponential_strategy}
use goshield_bootcamp.Resilience.Options.{
  Setter, with_circuit_breaker, with_retry, with_rate_limiter, with_timeout, with_bulkhead,
}
use goshield_bootcamp.Backoff.Strategy.{ExponentialBackoff, exponential_random_next, Strategy}
use goshield_bootcamp.Bulkhead.Core.{Bulkhead}
use goshield_bootcamp.Breaker.Adaptive.{
  AdaptiveBreaker, AdaptiveConfig, new_adaptive, execute_adaptive, update_emas,
}
use goshield_bootcamp.Breaker.Params.{AdaptiveParams, get_adaptive_params}
use goshield_bootcamp.Breaker.Config.{Config as BreakerConfig, seconds}
use goshield_bootcamp.Breaker.Core.{CircuitBreaker}
use goshield_bootcamp.Base.Go.{
  Proc, returned, Outcome, GoError, other, Clock, Cell, Duration, Time, millisecond,
}
use goshield_bootcamp.Base.Float.{Float64}
use goshield_bootcamp.Base.Int.{pos}
use goshield_bootcamp.Base.{
  ℕ, ◌+◌, ◌*◌, true, not, Option, none, some, List, [], ◌∷◌, if◌then◌else◌,
}

-- Critical payment service, and the analytics service.
abbrev pub payment_breaker : BreakerConfig
payment_breaker = record no_breaker_config {
  name = "payment-service";
  failure_rate_threshold = 30;
  minimum_number_of_calls = 5;
  sliding_window_size = 10;
  timeout = seconds 5;
  slow_call_duration = pos (500 * millisecond);
  slow_call_rate_threshold = 40;
  on_state_change = true;
}

abbrev pub analytics_breaker : BreakerConfig
analytics_breaker = record no_breaker_config {
  name = "analytics-service";
  failure_rate_threshold = 70;
  minimum_number_of_calls = 20;
  sliding_window_size = 50;
  timeout = seconds 60;
}

abbrev pub primary_breaker : BreakerConfig
primary_breaker = record no_breaker_config {
  name = "primary";
  failure_rate_threshold = 40;
  minimum_number_of_calls = 3;
  timeout = seconds 5;
}

abbrev pub gateway_breaker : BreakerConfig
gateway_breaker = record no_breaker_config {
  name = "api-gateway";
  failure_rate_threshold = 50;
  minimum_number_of_calls = 10;
  timeout = seconds 30;
}

-- What math/rand and time give: `rand.Intn(n)`, `rand.Float64()`, `time.Sleep` and `time.Now`.
pub record Chance {ℓ κ} (S : Type ℓ) (F : Type κ) : Type (ℓ ⊔ κ) where
  pub intn : ℕ → S → ℕ × S
  pub float64 : S → F × S
  pub sleep : Duration → S → S
  pub stamp : Clock S

module _ {ℓ} {F : Type ℓ} (float : Float64 F) where
  -- The adaptive breaker. Of OnAdaptiveChange nothing is called.
  abbrev pub adaptive_config : AdaptiveConfig F
  adaptive_config = record {
    base = record no_breaker_config {
      name = "adaptive-service";
      failure_rate_threshold = 50;
      minimum_number_of_calls = 5;
      timeout = seconds 10;
    };
    failure_rate_ema_alpha = float.literal 1 2;
    latency_ema_alpha = float.literal 3 10;
    min_failure_rate_threshold = float.of_uint 20;
    max_failure_rate_threshold = float.of_uint 80;
    consecutive_failure_limit = 5;
    slow_call_multiplier = float.of_uint 2;
    min_slow_call_duration = pos 0;
    max_slow_call_duration = pos 0;
    timeout_multiplier = float.literal 3 2;
    max_timeout = seconds 120;
  }

  -- `Backoff: &backoff.ExponentialRandomBackoff{…}`, where `drawn` is what each retry draws.
  abbrev pub random_strategy : (ℕ → F) → ExponentialBackoff F → Strategy
  unfolding exponential_random_next
  random_strategy drawn b = record {
    next = λ retry. exponential_random_next float (drawn retry) b retry;
    max_retries = b.max_retry_count;
  }

module _ {ℓ κ} {F : Type ℓ} (float : Float64 F) {S : Type κ} where
  -- `ErrServiceUnavailable` is the error number 0.
  unfoldable pub simulate_service_call : Chance S F → F → Proc S (Outcome Time)
  simulate_service_call chance failure_rate s =
      let (n, s₁) = chance.intn 50 s in
      let (x, s₂) = chance.float64 (chance.sleep (pos (n * millisecond)) s₁) in
      let (t, s₃) = chance.stamp s₂ in
      if float.lt x failure_rate
      then returned (none, some (other 0)) s₂
      else returned (some t, none) s₃

  -- A phase of the adaptive breaker: calls, UpdateEMAs and the parameters, which are printed.
  unfoldable pub phase :
      Clock S
      → Chance S F
      → Cell S (AdaptiveBreaker F)
      → (AdaptiveParams F → S → S)
      → F
      → Proc S (Unit {0})
  unfolding repeat execute_adaptive simulate_service_call update_emas get_adaptive_params
  phase clock chance cell print failure_rate =
      repeat 15 0 (λ i s.
        discard (execute_adaptive float cell clock (simulate_service_call chance failure_rate) s))
      >> act (λ s. cell.put (update_emas float (cell.get s)) s)
      >> act (λ s. print (get_adaptive_params float (cell.get s)) s)

  unfoldable pub adaptive_part :
      Clock S
      → Chance S F
      → Cell S (AdaptiveBreaker F)
      → (AdaptiveParams F → S → S)
      → Proc S (Unit {0})
  unfolding new_adaptive phase
  adaptive_part clock chance cell print =
      act (cell.put (new_adaptive float (adaptive_config float)))
      >> phase clock chance cell print (float.literal 1 10)
      >> phase clock chance cell print (float.literal 3 5)

  unfoldable pub primary_options : Cell S CircuitBreaker → List (Setter S Time)
  unfolding with_circuit_breaker with_retry with_timeout
  primary_options breaker =
      with_circuit_breaker breaker primary_breaker
      ∷ with_retry (
          retry_literal (
            exponential_strategy float (record {
              initial_interval = pos (50 * millisecond);
              max_interval = pos (500 * millisecond);
              max_retry_count = pos 2;
              multiplier = float.of_uint 0;
            })))
      ∷ with_timeout (seconds 2)
      ∷ []

  unfoldable pub full_options :
      (ℕ → F)
      → (ℕ → GoError → S → S)
      → Cell S CircuitBreaker
      → Cell S Bulkhead
      → (S → Option GoError × S)
      → List (Setter S Time)
  unfolding with_circuit_breaker with_retry with_rate_limiter with_timeout with_bulkhead
  full_options drawn print breaker bulkhead wait =
      with_circuit_breaker breaker gateway_breaker
      ∷ with_retry (record {
        backoff = random_strategy float drawn (record {
          initial_interval = pos (100 * millisecond);
          max_interval = seconds 5;
          max_retry_count = pos 3;
          multiplier = float.of_uint 2;
        });
        retry_on = some (λ err. not (is_canceled err));
        on_retry = some (λ retry err s. print (retry + 1) err s);
      })
      ∷ with_rate_limiter wait
      ∷ with_timeout (seconds 10)
      ∷ with_bulkhead bulkhead (bulkhead_literal (pos 50) (seconds 5))
      ∷ []
