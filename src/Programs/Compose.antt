-- ===== src/Programs/Compose.antt =====
-- The example of the executor (examples/compose/main.go). A response is the number that it formats.
use goshield_bootcamp.Programs.Literals.{no_breaker_config, bulkhead_literal, repeat}
use goshield_bootcamp.Public.Runs.{exponential_strategy}
use goshield_bootcamp.Resilience.Options.{
  Setter, new_executor, with_circuit_breaker, with_retry, with_rate_limiter, with_timeout,
  with_bulkhead,
}
use goshield_bootcamp.Resilience.Executor.{Executor, Runtime, execute as executor_execute}
use goshield_bootcamp.Backoff.Retry.{RetryConfig}
use goshield_bootcamp.Bulkhead.Core.{Bulkhead}
use goshield_bootcamp.Breaker.Config.{Config as BreakerConfig, seconds}
use goshield_bootcamp.Breaker.Core.{CircuitBreaker}
use goshield_bootcamp.RateLimit.TokenBucket.{TokenBucket, new_token_bucket}
use goshield_bootcamp.Base.Go.{
  Proc, returned, panicked, Outcome, GoError, context_canceled, join, other, Clock, Cell,
  millisecond,
}
use goshield_bootcamp.Base.Float.{Float64}
use goshield_bootcamp.Base.Int.{pos}
use goshield_bootcamp.Base.{
  ℕ, ◌+◌, ◌*◌, ◌%◌, Bool, true, false, not, ◌||◌, Option, none, some, List, [], ◌∷◌, ◌==◌,
  if◌then◌else◌,
}

pub data Line : Type 0 where
  retry_line : ℕ → GoError → Line
  failed_line : ℕ → GoError → Line
  succeeded_line : ℕ → Option ℕ → Line

-- `errors.Is(err, context.Canceled)`
abbrev pub is_canceled : GoError → Bool
is_canceled context_canceled = true
is_canceled (join e f) = is_canceled e || is_canceled f
is_canceled _ = false

abbrev pub gateway_breaker : BreakerConfig
gateway_breaker = record no_breaker_config {
  name = "api-breaker";
  failure_rate_threshold = 50;
  minimum_number_of_calls = 5;
  sliding_window_size = 10;
  timeout = seconds 30;
  on_state_change = true;
}

-- `errors.New("service unavailable")` is the error number 0.
unfoldable pub call_external_api {ℓ} : {S : Type ℓ} → ℕ → Proc S (Outcome ℕ)
call_external_api id s =
    returned (if id % 3 == 0 then (none, some (other 0)) else (some id, none)) s

module _ {ℓ κ} {F : Type ℓ} (float : Float64 F) {S : Type κ} (print : Line → S → S) where
  -- The retries: on every error but that of a context that was cancelled.
  unfoldable pub transient_retry : RetryConfig S
  transient_retry = record {
    backoff = exponential_strategy float (record {
      initial_interval = pos (100 * millisecond);
      max_interval = seconds 5;
      max_retry_count = pos 3;
      multiplier = float.of_uint 2;
    });
    retry_on = some (λ err. not (is_canceled err));
    on_retry = some (λ retry err s. print (retry_line (retry + 1) err) s);
  }

  unfoldable pub compose_options :
      Cell S CircuitBreaker → Cell S Bulkhead → (S → Option GoError × S) → List (Setter S ℕ)
  unfolding with_circuit_breaker with_retry with_rate_limiter with_timeout with_bulkhead
      transient_retry
  compose_options breaker bulkhead wait =
      with_circuit_breaker breaker gateway_breaker
      ∷ with_retry transient_retry
      ∷ with_rate_limiter wait
      ∷ with_timeout (seconds 5)
      ∷ with_bulkhead bulkhead (bulkhead_literal (pos 50) (seconds 10))
      ∷ []

  -- One round of the loop.
  unfoldable pub composed_call : Runtime S ℕ → Executor S ℕ → ℕ → Proc S (Unit {0})
  unfolding executor_execute call_external_api
  composed_call rt e i s = elim (executor_execute float rt e (call_external_api i) s) [
    | panicked s' ↦ panicked s'
    | returned (v, some err) s' ↦ returned tt (print (failed_line i err) s')
    | returned (v, none) s' ↦ returned tt (print (succeeded_line i v) s')
  ]

  -- `main`
  unfoldable pub main :
      Clock S
      → Runtime S ℕ
      → Cell S CircuitBreaker
      → Cell S (TokenBucket F)
      → Cell S Bulkhead
      → (S → Option GoError × S)
      → Proc S (Unit {0})
  unfolding new_executor compose_options composed_call repeat new_token_bucket
  main clock rt breaker limiter bulkhead wait s =
      let (now, s₁) = clock s in
      let s₂ = limiter.put (new_token_bucket float now (float.of_uint 100) (pos 200)) s₁ in
      let (e, s₃) = new_executor (compose_options breaker bulkhead wait) s₂ in
      repeat 10 0 (composed_call rt e) s₃
