-- ===== src/Examples/Resilience.antt =====
-- Timeouts, fallbacks, chains and the executor at concrete inputs.
use mathlib.Core.Path.{subst}
use mathlib.Core.Option.{some-injective}
use goshield_bootcamp.Backoff.Retry.{call_on_retry}
use goshield_bootcamp.Resilience.Balance.{executor-IsBalanced, IsFramed}
use goshield_bootcamp.Bulkhead.Core.{Bulkhead, new as new_bulkhead, Config as BulkheadConfig}
use goshield_bootcamp.Backoff.Strategy.{fixed_strategy, FixedBackoff}
use goshield_bootcamp.Backoff.Retry.{RetryConfig}
use goshield_bootcamp.Examples.Fixed.{fixed}
use goshield_bootcamp.Bulkhead.Execute.{end_of, slots, sent}
use goshield_bootcamp.Base.Go.{panicked, pure, returned, ◌>>=◌, Cell}
use goshield_bootcamp.Base.Int.{pos}
use goshield_bootcamp.Breaker.Config.{default_config}
use goshield_bootcamp.Base.{false, arith, ℕ, ◌≡◌, refl, none, some}
use goshield_bootcamp.Timeout.{expired, finished}
use goshield_bootcamp.Fallback.{Config as FallbackConfig}
use goshield_bootcamp.Resilience.Executor.{Executor, Runtime, execute}
use goshield_bootcamp.Breaker.Calls.{force_open}
use goshield_bootcamp.Breaker.Core.{CircuitBreaker, new}

abbrev only : Cell CircuitBreaker CircuitBreaker
only = record { get = λ s. s; put = λ a s. a }

abbrev runtime : Runtime CircuitBreaker ℕ
runtime = record {
  clock = λ s. (9, s);
  sleep = λ d s. (none, s);
  select = λ s. (sent, s);
  race = λ d fn s. (fn >>= (λ r. pure (finished r))) s;
  attempts = 4;
}

forced : CircuitBreaker
forced = force_open (new (default_config "api"))

abbrev answers_zero : FallbackConfig CircuitBreaker ℕ
answers_zero = record { fallback = some (λ e s. returned (some 0, none) s); on_fallback = none }

abbrev three_times : FixedBackoff
three_times = record { interval = pos 7; max_retry_count = pos 3 }

abbrev slots_cell : Cell Bulkhead Bulkhead
slots_cell = record { get = λ s. s; put = λ a s. a }

abbrev bulkhead_runtime : Runtime Bulkhead ℕ
bulkhead_runtime = record {
  clock = λ s. (9, s);
  sleep = λ d s. (none, s);
  select = λ s. (sent, s);
  race = λ d fn s. returned expired s;
  attempts = 4;
}

abbrev plain_retries : RetryConfig Bulkhead
plain_retries = record { backoff = fixed_strategy three_times; retry_on = none; on_retry = none }

-- A retry inside a bulkhead.
abbrev retried_inside : Executor Bulkhead ℕ
retried_inside = record {
  circuit_breaker = none;
  retry_config = some plain_retries;
  rate_limiter = none;
  timeout_config = none;
  bulkhead = some slots_cell;
  fallback_config = none;
}

retried_inside-IsFramed :
    (n : ℕ × ℕ)
    → IsFramed
        (λ s. slots slots_cell bulkhead_runtime.select s ≡ n)
        bulkhead_runtime
        (record retried_inside { bulkhead = none })
retried_inside-IsFramed n = record {
  tick = λ s p. p;
  nap = λ d s p. p;
  sel = λ s p. p;
  race = λ d fn k s p. p;
  on_breaker = λ c h. absurd (ground arith);
  on_retry = λ c h i err s p.
      subst
        (λ (d : RetryConfig Bulkhead).
          slots slots_cell bulkhead_runtime.select (call_on_retry d.on_retry i err s) ≡ n)
        (some-injective _ _ h) p;
  on_limiter = λ c h. absurd (ground arith);
  on_timeout = λ c h. absurd (ground arith);
  on_bulkhead = λ c h. absurd (ground arith);
  on_fallback = λ c h. absurd (ground arith);
  fallback = λ c h. absurd (ground arith);
}

abbrev one_slot : BulkheadConfig
one_slot = record { max_concurrent = pos 1; max_wait_duration = pos 0; on_call_rejected = false }

executor-IsBalanced_example :
    slots slots_cell bulkhead_runtime.select (
      end_of
        (execute fixed bulkhead_runtime retried_inside (λ s. panicked s) (new_bulkhead one_slot)))
    ≡ slots slots_cell bulkhead_runtime.select (new_bulkhead one_slot)
executor-IsBalanced_example =
    executor-IsBalanced fixed bulkhead_runtime retried_inside slots_cell (λ a s. refl) refl
      retried_inside-IsFramed (λ s. panicked s) (λ s. refl) (new_bulkhead one_slot)
