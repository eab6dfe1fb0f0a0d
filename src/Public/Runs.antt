-- ===== src/Public/Runs.antt =====
-- The public functions that run one pattern (pkg/ratelimit/ratelimit.go, pkg/backoff/backoff.go,
-- pkg/timeout/timeout.go, pkg/bulkhead/bulkhead.go, pkg/fallback/fallback.go).
use goshield_bootcamp.RateLimit.Limiter.{Limiter}
use goshield_bootcamp.RateLimit.Reservation.{Waited, Round}
use goshield_bootcamp.Fallback.{Config as FallbackConfig, execute as fallback_execute}
use goshield_bootcamp.Bulkhead.Core.{Bulkhead, Config as BulkheadConfig, new as new_bulkhead}
use goshield_bootcamp.Backoff.Strategy.{
  ExponentialBackoff, fixed_strategy, exponential_next, Strategy,
}
use goshield_bootcamp.Backoff.Attempts.{IsFinite, execute_from_total, fixed-IsFinite}
use goshield_bootcamp.Base.Go.{Outcome, Duration, GoError, Exit, rate_limit_exceeded, Proc}
use goshield_bootcamp.Base.Float.{Float64}
use goshield_bootcamp.Base.Int.{ℤ, pos}
use goshield_bootcamp.Base.{List, ℕ, suc, ◌≡◌, refl, Bool, Option, none, some, arith, if◌then◌else◌}
use goshield_bootcamp.Timeout.{Race, Config as TimeoutConfig, execute as timeout_execute}
use goshield_bootcamp.Backoff.Retry.{execute_from, RetryConfig}

-- `ratelimit.Allow`, of what the limiter's Allow answers.
unfoldable pub allow_error : Bool → Option GoError
allow_error ok = if ok then none else some rate_limit_exceeded

module _ {ℓ κ} {S : Type ℓ} {F : Type κ} where
  -- `ratelimit.Allow` and `ratelimit.Wait`
  unfoldable pub allow_or_error : Limiter S F → S → Option GoError × S
  unfolding allow_error
  allow_or_error limiter s = let (ok, s') = limiter.allow s in (allow_error ok, s')

  unfoldable pub wait_for : Limiter S F → List Round → S → Waited × S
  wait_for limiter rs s = limiter.wait rs s

-- The configurations that the ready-made retries fill: a strategy alone.
abbrev pub fixed_retry_config {ℓ} : {S : Type ℓ} → Duration → ℤ → RetryConfig S
fixed_retry_config interval max_retries = record {
  backoff = fixed_strategy (record { interval = interval; max_retry_count = max_retries });
  retry_on = none;
  on_retry = none;
}

module _ {κ} {F : Type κ} (float : Float64 F) where
  abbrev pub exponential_strategy : ExponentialBackoff F → Strategy
  unfolding exponential_next
  exponential_strategy b = record {
    next = exponential_next float b;
    max_retries = b.max_retry_count;
  }

  -- The multiplier, which is not set, is 0.
  abbrev pub exponential_retry_config {ℓ} : {S : Type ℓ} → Duration → Duration → ℤ → RetryConfig S
  exponential_retry_config initial max max_retries = record {
    backoff = exponential_strategy (record {
      initial_interval = initial;
      max_interval = max;
      max_retry_count = max_retries;
      multiplier = float.of_uint 0;
    });
    retry_on = none;
    on_retry = none;
  }

  exponential-IsFinite :
      (b : ExponentialBackoff F) (max : ℕ)
      → b.max_retry_count ≡ pos max
      → IsFinite max (exponential_strategy b)
  unfolding exponential_next
  exponential-IsFinite b max e k h = ground arith

module _ {ℓ μ} {S : Type ℓ} {A : Type μ} (sleep : Duration → S → Option GoError × S) where
  -- Each runs with fuel for that many attempts.
  unfoldable pub with_fixed_retry :
      Duration → ℤ → ℕ → Proc S (Outcome A) → S → Option (Exit S (Outcome A))
  unfolding execute_from
  with_fixed_retry interval max_retries fuel fn s =
      execute_from (fixed_retry_config interval max_retries) sleep fuel 0 fn s

module _ {κ ℓ μ} {F : Type κ} (float : Float64 F) {S : Type ℓ} {A : Type μ}
    (sleep : Duration → S → Option GoError × S) where
  unfoldable pub with_exponential_retry :
      Duration → Duration → ℤ → ℕ → Proc S (Outcome A) → S → Option (Exit S (Outcome A))
  unfolding execute_from
  with_exponential_retry initial max max_retries fuel fn s =
      execute_from (exponential_retry_config float initial max max_retries) sleep fuel 0 fn s

  -- The two ready-made retries come to an end, whatever the function and the sleeps do: with fuel
  -- for one attempt more than the retries asked for, both return or panic.
  pub ready_retries_total :
      (d initial high : Duration) (max : ℕ) (fn : Proc S (Outcome A)) (s : S)
      → ((x : Exit S (Outcome A)) × (with_fixed_retry sleep d (pos max) (suc max) fn s ≡ some x))
        × ((x : Exit S (Outcome A)) × (with_exponential_retry initial high (pos max) (suc max) fn s
              ≡ some x))
  unfolding with_fixed_retry with_exponential_retry
  ready_retries_total d initial high max fn s =
      let steady = fixed_retry_config {S = S} d (pos max) in
      let growing = exponential_retry_config float {S = S} initial high (pos max) in
      let fixed_ends =
        fixed-IsFinite (record { interval = d; max_retry_count = pos max }) max refl in
      let exponential_ends =
        exponential-IsFinite float
          (record {
            initial_interval = initial;
            max_interval = high;
            max_retry_count = pos max;
            multiplier = float.of_uint 0;
          })
          max refl in
      (
        execute_from_total steady sleep max (suc max) 0 fixed_ends (omega arith) (omega arith) fn s,
        execute_from_total growing sleep max (suc max) 0 exponential_ends (omega arith)
            (omega arith) fn s,
      )

module _ {ℓ μ} {S : Type ℓ} {A : Type μ} where
  -- `timeout.WithTimeout`
  unfoldable pub run_with_timeout : Race S A → Duration → Proc S (Outcome A) → Proc S (Outcome A)
  unfolding timeout_execute
  run_with_timeout race d fn = timeout_execute race (record { duration = d; on_timeout = none }) fn

-- `timeout.Config` and `fallback.Config` have the fields of the internal ones, which `Execute`
-- fills.
unfoldable pub internal_timeout_config {ℓ} : {S : Type ℓ} → TimeoutConfig S → TimeoutConfig S
internal_timeout_config c = record { duration = c.duration; on_timeout = c.on_timeout }

unfoldable pub internal_fallback_config {ℓ μ} :
    {S : Type ℓ} {A : Type μ} → FallbackConfig S A → FallbackConfig S A
internal_fallback_config c = record { fallback = c.fallback; on_fallback = c.on_fallback }

-- `bulkhead.New`
unfoldable pub new_from_public : BulkheadConfig → Bulkhead
unfolding new_bulkhead
new_from_public c = new_bulkhead (record {
  max_concurrent = c.max_concurrent;
  max_wait_duration = c.max_wait_duration;
  on_call_rejected = c.on_call_rejected;
})

module _ {ℓ μ} {S : Type ℓ} {A : Type μ} where
  unfoldable pub public_timeout_execute :
      Race S A → TimeoutConfig S → Proc S (Outcome A) → Proc S (Outcome A)
  unfolding timeout_execute internal_timeout_config
  public_timeout_execute race c fn = timeout_execute race (internal_timeout_config c) fn

  unfoldable pub public_fallback_execute :
      FallbackConfig S A → Proc S (Outcome A) → Proc S (Outcome A)
  unfolding fallback_execute internal_fallback_config
  public_fallback_execute c fn = fallback_execute (internal_fallback_config c) fn
