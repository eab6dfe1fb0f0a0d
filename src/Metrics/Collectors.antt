-- ===== src/Metrics/Collectors.antt =====
-- The collectors of the patterns (internal/metrics/collectors.go). What their callbacks return is
-- an argument: a record of the numbers, a state, a name.
use goshield_bootcamp.Base.Go.{Time}
use Prim.Native.String.{String, ◌++◌ as ◌<>◌}
use goshield_bootcamp.Metrics.Sample.{MetricSample, Label, counter, gauge}
use goshield_bootcamp.Base.Float.{Float64}
use goshield_bootcamp.Base.Int.{ℤ, pos}
use goshield_bootcamp.Base.{List, ℕ, zero, suc, [], ◌∷◌}

pub record BreakerNumbers {ℓ} (F : Type ℓ) : Type ℓ where
  pub failure_rate : F
  pub slow_call_rate : F
  pub total_calls : ℕ
  pub total_successes : ℕ
  pub total_failures : ℕ
  pub total_rejected : ℕ
  pub total_slow_calls : ℕ
  pub state_transitions : ℕ

pub record AdaptiveNumbers {ℓ} (F : Type ℓ) : Type ℓ where
  pub failure_rate_ema : F
  pub adaptive_threshold : F
  pub latency_ema : ℤ
  pub consecutive_failures : ℕ
  pub trip_count : ℕ

pub record BulkheadNumbers : Type 0 where
  pub available : ℤ
  pub max_concurrent : ℤ
  pub total_executions : ℤ
  pub total_rejections : ℤ
  pub current_running : ℤ

pub record RetryNumbers : Type 0 where
  pub total_attempts : ℕ
  pub total_successes : ℕ
  pub total_retries : ℕ

pub record TimeoutNumbers : Type 0 where
  pub total_calls : ℕ
  pub total_timeouts : ℕ
  pub total_successes : ℕ

-- `stateString`; `show` is the `%d` of fmt.
unfoldable pub state_string : (ℤ → String) → ℤ → String
state_string show (pos zero) = "closed"
state_string show (pos (suc zero)) = "open"
state_string show (pos (suc (suc zero))) = "half_open"
state_string show (pos (suc (suc (suc zero)))) = "disabled"
state_string show (pos (suc (suc (suc (suc zero))))) = "forced_open"
state_string show state = "unknown_" <> show state

abbrev pub name_label : String → Label
name_label name = record { name = "name"; value = name }

module _ {ℓ} {F : Type ℓ} (float : Float64 F) (show : ℤ → String) (name : String) where
  open float use {of_uint, of_int}

  abbrev pub state_label : ℤ → Label
  unfolding state_string
  state_label state = record { name = "state"; value = state_string show state }

  unfoldable pub collect_breaker : ℤ → BreakerNumbers F → Time → List (MetricSample F)
  collect_breaker state m ts =
      record {
        name = "breaker_state";
        labels = name_label name ∷ state_label state ∷ [];
        value = of_uint 1;
        kind = gauge;
        help = "Current state of the circuit breaker (1 = active state).";
        timestamp = ts;
      }
      ∷ record {
        name = "breaker_failure_rate";
        labels = name_label name ∷ [];
        value = m.failure_rate;
        kind = gauge;
        help = "Current failure rate percentage in the sliding window.";
        timestamp = ts;
      }
      ∷ record {
        name = "breaker_slow_call_rate";
        labels = name_label name ∷ [];
        value = m.slow_call_rate;
        kind = gauge;
        help = "Current slow call rate percentage in the sliding window.";
        timestamp = ts;
      }
      ∷ record {
        name = "breaker_calls_total";
        labels = name_label name ∷ [];
        value = of_uint m.total_calls;
        kind = gauge;
        help = "Current window call count.";
        timestamp = ts;
      }
      ∷ record {
        name = "breaker_successes_total";
        labels = name_label name ∷ [];
        value = of_uint m.total_successes;
        kind = counter;
        help = "Total successful calls since creation.";
        timestamp = ts;
      }
      ∷ record {
        name = "breaker_failures_total";
        labels = name_label name ∷ [];
        value = of_uint m.total_failures;
        kind = counter;
        help = "Total failed calls since creation.";
        timestamp = ts;
      }
      ∷ record {
        name = "breaker_rejected_total";
        labels = name_label name ∷ [];
        value = of_uint m.total_rejected;
        kind = counter;
        help = "Total rejected calls (open/half-open overflow).";
        timestamp = ts;
      }
      ∷ record {
        name = "breaker_slow_calls_total";
        labels = name_label name ∷ [];
        value = of_uint m.total_slow_calls;
        kind = counter;
        help = "Total slow calls since creation.";
        timestamp = ts;
      }
      ∷ record {
        name = "breaker_state_transitions_total";
        labels = name_label name ∷ [];
        value = of_uint m.state_transitions;
        kind = counter;
        help = "Total state transitions.";
        timestamp = ts;
      }
      ∷ []

  unfoldable pub collect_rate_limiter : F → ℤ → Time → List (MetricSample F)
  collect_rate_limiter rate burst ts =
      record {
        name = "ratelimit_rate";
        labels = name_label name ∷ [];
        value = rate;
        kind = gauge;
        help = "Configured rate (tokens per second or requests per window).";
        timestamp = ts;
      }
      ∷ record {
        name = "ratelimit_burst";
        labels = name_label name ∷ [];
        value = of_int burst;
        kind = gauge;
        help = "Configured burst size.";
        timestamp = ts;
      }
      ∷ []

  unfoldable pub collect_bulkhead : BulkheadNumbers → Time → List (MetricSample F)
  collect_bulkhead m ts =
      record {
        name = "bulkhead_available_permits";
        labels = name_label name ∷ [];
        value = of_int m.available;
        kind = gauge;
        help = "Number of available concurrent execution slots.";
        timestamp = ts;
      }
      ∷ record {
        name = "bulkhead_max_concurrent";
        labels = name_label name ∷ [];
        value = of_int m.max_concurrent;
        kind = gauge;
        help = "Maximum concurrent executions allowed.";
        timestamp = ts;
      }
      ∷ record {
        name = "bulkhead_running";
        labels = name_label name ∷ [];
        value = of_int m.current_running;
        kind = gauge;
        help = "Currently running executions.";
        timestamp = ts;
      }
      ∷ record {
        name = "bulkhead_executions_total";
        labels = name_label name ∷ [];
        value = of_int m.total_executions;
        kind = counter;
        help = "Total successful executions.";
        timestamp = ts;
      }
      ∷ record {
        name = "bulkhead_rejections_total";
        labels = name_label name ∷ [];
        value = of_int m.total_rejections;
        kind = counter;
        help = "Total rejected executions (at capacity).";
        timestamp = ts;
      }
      ∷ []

  unfoldable pub collect_retry : RetryNumbers → Time → List (MetricSample F)
  collect_retry m ts =
      record {
        name = "retry_attempts_total";
        labels = name_label name ∷ [];
        value = of_uint m.total_attempts;
        kind = counter;
        help = "Total retry attempts (including first try).";
        timestamp = ts;
      }
      ∷ record {
        name = "retry_successes_total";
        labels = name_label name ∷ [];
        value = of_uint m.total_successes;
        kind = counter;
        help = "Total successful calls (after retries).";
        timestamp = ts;
      }
      ∷ record {
        name = "retry_retries_total";
        labels = name_label name ∷ [];
        value = of_uint m.total_retries;
        kind = counter;
        help = "Total retry events (not counting first attempt).";
        timestamp = ts;
      }
      ∷ []

  unfoldable pub collect_timeout : TimeoutNumbers → Time → List (MetricSample F)
  collect_timeout m ts =
      record {
        name = "timeout_calls_total";
        labels = name_label name ∷ [];
        value = of_uint m.total_calls;
        kind = counter;
        help = "Total calls through timeout wrapper.";
        timestamp = ts;
      }
      ∷ record {
        name = "timeout_timeouts_total";
        labels = name_label name ∷ [];
        value = of_uint m.total_timeouts;
        kind = counter;
        help = "Total calls that timed out.";
        timestamp = ts;
      }
      ∷ record {
        name = "timeout_successes_total";
        labels = name_label name ∷ [];
        value = of_uint m.total_successes;
        kind = counter;
        help = "Total calls that completed before timeout.";
        timestamp = ts;
      }
      ∷ []

  unfoldable pub collect_adaptive :
      ℤ → BreakerNumbers F → AdaptiveNumbers F → Time → List (MetricSample F)
  collect_adaptive state m p ts =
      record {
        name = "breaker_state";
        labels = name_label name ∷ state_label state ∷ [];
        value = of_uint 1;
        kind = gauge;
        help = "Current state of the circuit breaker (1 = active state).";
        timestamp = ts;
      }
      ∷ record {
        name = "breaker_failure_rate";
        labels = name_label name ∷ [];
        value = m.failure_rate;
        kind = gauge;
        help = "Current failure rate percentage in the sliding window.";
        timestamp = ts;
      }
      ∷ record {
        name = "breaker_slow_call_rate";
        labels = name_label name ∷ [];
        value = m.slow_call_rate;
        kind = gauge;
        help = "Current slow call rate percentage in the sliding window.";
        timestamp = ts;
      }
      ∷ record {
        name = "breaker_calls_total";
        labels = name_label name ∷ [];
        value = of_uint m.total_calls;
        kind = gauge;
        help = "Current window call count.";
        timestamp = ts;
      }
      ∷ record {
        name = "breaker_successes_total";
        labels = name_label name ∷ [];
        value = of_uint m.total_successes;
        kind = counter;
        help = "Total successful calls since creation.";
        timestamp = ts;
      }
      ∷ record {
        name = "breaker_failures_total";
        labels = name_label name ∷ [];
        value = of_uint m.total_failures;
        kind = counter;
        help = "Total failed calls since creation.";
        timestamp = ts;
      }
      ∷ record {
        name = "breaker_rejected_total";
        labels = name_label name ∷ [];
        value = of_uint m.total_rejected;
        kind = counter;
        help = "Total rejected calls (open/half-open overflow).";
        timestamp = ts;
      }
      ∷ record {
        name = "breaker_slow_calls_total";
        labels = name_label name ∷ [];
        value = of_uint m.total_slow_calls;
        kind = counter;
        help = "Total slow calls since creation.";
        timestamp = ts;
      }
      ∷ record {
        name = "breaker_state_transitions_total";
        labels = name_label name ∷ [];
        value = of_uint m.state_transitions;
        kind = counter;
        help = "Total state transitions.";
        timestamp = ts;
      }
      ∷ record {
        name = "breaker_adaptive_failure_rate_ema";
        labels = name_label name ∷ [];
        value = p.failure_rate_ema;
        kind = gauge;
        help = "Exponential moving average of failure rate.";
        timestamp = ts;
      }
      ∷ record {
        name = "breaker_adaptive_threshold";
        labels = name_label name ∷ [];
        value = p.adaptive_threshold;
        kind = gauge;
        help = "Current adaptive failure rate threshold.";
        timestamp = ts;
      }
      ∷ record {
        name = "breaker_adaptive_latency_ema_ns";
        labels = name_label name ∷ [];
        value = of_int p.latency_ema;
        kind = gauge;
        help = "Exponential moving average of call latency in nanoseconds.";
        timestamp = ts;
      }
      ∷ record {
        name = "breaker_adaptive_consecutive_failures";
        labels = name_label name ∷ [];
        value = of_uint p.consecutive_failures;
        kind = gauge;
        help = "Current consecutive failure count.";
        timestamp = ts;
      }
      ∷ record {
        name = "breaker_adaptive_trip_count";
        labels = name_label name ∷ [];
        value = of_uint p.trip_count;
        kind = counter;
        help = "Total number of times the adaptive breaker has tripped.";
        timestamp = ts;
      }
      ∷ []
