-- ===== src/Resilience/Options.antt =====
-- How an executor is put together and printed (pkg/resilience/executor.go,
-- pkg/resilience/resilience.go). A cell is the place that a new object gets.
use goshield_bootcamp.Base.Go.{Duration, GoError, Cell}
use goshield_bootcamp.Resilience.Executor.{Executor, patterns}
use goshield_bootcamp.Base.{ℕ, Option, none, some, List, [], ◌∷◌, ◌==◌, if◌then◌else◌}
use Prim.Native.String.{String, ◌++◌ as ◌<>◌}
use goshield_bootcamp.Breaker.Config.{Config as BreakerConfig}
use goshield_bootcamp.Bulkhead.Core.{Bulkhead, Config as BulkheadConfig, new as new_bulkhead}
use goshield_bootcamp.Breaker.Core.{CircuitBreaker, new as new_breaker}
use goshield_bootcamp.Fallback.{Config as FallbackConfig}
use goshield_bootcamp.Backoff.Retry.{RetryConfig}

-- `Option`: it fills a field of the executor, and may make an object.
abbrev pub Setter {ℓ μ} : Type ℓ → Type μ → Type (ℓ ⊔ μ)
Setter S A = Executor S A → S → Executor S A × S

module _ {ℓ μ} {S : Type ℓ} {A : Type μ} where
  unfoldable pub with_circuit_breaker : Cell S CircuitBreaker → BreakerConfig → Setter S A
  unfolding new_breaker
  with_circuit_breaker cell config e s =
      (record e { circuit_breaker = some cell }, cell.put (new_breaker config) s)

  unfoldable pub with_retry : RetryConfig S → Setter S A
  with_retry config e s = (record e { retry_config = some config }, s)

  -- A limiter is its method Wait.
  unfoldable pub with_rate_limiter : (S → Option GoError × S) → Setter S A
  with_rate_limiter limiter e s = (record e { rate_limiter = some limiter }, s)

  unfoldable pub with_timeout : Duration → Setter S A
  with_timeout d e s =
      (record e { timeout_config = some (record { duration = d; on_timeout = none }) }, s)

  unfoldable pub with_bulkhead : Cell S Bulkhead → BulkheadConfig → Setter S A
  unfolding new_bulkhead
  with_bulkhead cell config e s =
      (record e { bulkhead = some cell }, cell.put (new_bulkhead config) s)

  unfoldable pub with_fallback : FallbackConfig S A → Setter S A
  with_fallback config e s = (record e { fallback_config = some config }, s)

  -- The loop of NewExecutor.
  unfoldable pub apply_options : List (Setter S A) → Setter S A
  apply_options [] e s = (e, s)
  apply_options (opt ∷ opts) e s = let (e', s') = opt e s in apply_options opts e' s'

  abbrev pub no_patterns : Executor S A
  no_patterns = record {
    circuit_breaker = none;
    retry_config = none;
    rate_limiter = none;
    timeout_config = none;
    bulkhead = none;
    fallback_config = none;
  }

  unfoldable pub new_executor : List (Setter S A) → S → Executor S A × S
  unfolding apply_options
  new_executor opts s = apply_options opts no_patterns s

-- `strings.Join(patterns, " → ")`
abbrev pub arrows : List String → String
arrows [] = ""
arrows (x ∷ []) = x
arrows (x ∷ y ∷ rest) = x <> " → " <> arrows (y ∷ rest)

-- `Executor.String`, by the names of the patterns.
abbrev pub executor_text : List String → String
executor_text [] = "Executor(no patterns)"
executor_text (x ∷ xs) = "Executor(" <> arrows (x ∷ xs) <> ")"

unfoldable pub to_string {ℓ μ} : {S : Type ℓ} {A : Type μ} → Executor S A → String
unfolding patterns
to_string e = executor_text (patterns e)

-- `State.String`, of the integers that `iota` gives the states.
unfoldable pub state_text : ℕ → String
state_text n =
    if n == 0
    then "CLOSED"
    else if n == 1
    then "OPEN"
    else if n == 2
    then "HALF_OPEN"
    else if n == 3
    then "DISABLED"
    else if n == 4
    then "FORCED_OPEN"
    else "UNKNOWN"
