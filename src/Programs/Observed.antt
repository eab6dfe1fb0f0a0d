-- ===== src/Programs/Observed.antt =====
-- The example of the metrics (examples/metrics/main.go).
use goshield_bootcamp.Programs.Literals.{no_breaker_config, bulkhead_literal, repeat}
use goshield_bootcamp.Public.Metrics.{
  new_default_registry, register_breaker, register_bulkhead, register_rate_limiter, reading,
  bulkhead_numbers,
}
use goshield_bootcamp.Public.Typed.{
  fresh, with_breaker, with_rate_limiter, with_bulkhead, gather-IsTyped,
}
use goshield_bootcamp.Metrics.Collectors.{BreakerNumbers}
use goshield_bootcamp.Metrics.Sample.{MetricSample}
use goshield_bootcamp.Metrics.Registry.{Registry, gather}
use goshield_bootcamp.Middleware.Http.{Handler, header, body}
use goshield_bootcamp.Bulkhead.Core.{Bulkhead, new as new_bulkhead}
use goshield_bootcamp.Breaker.Config.{Config as BreakerConfig, seconds, state_code}
use goshield_bootcamp.Breaker.Core.{CircuitBreaker, new as new_breaker, get_state_unsafe}
use goshield_bootcamp.Breaker.Calls.{get_metrics}
use goshield_bootcamp.Breaker.Execute.{execute as breaker_execute}
use goshield_bootcamp.RateLimit.TokenBucket.{TokenBucket, new_token_bucket}
use goshield_bootcamp.Base.Go.{
  Cell, Clock, Duration, other, returned, panicked, Proc, Outcome, millisecond,
}
use goshield_bootcamp.Base.Float.{Float64}
use goshield_bootcamp.Base.Int.{ℤ, pos}
use goshield_bootcamp.Base.{
  ℕ, ◌*◌, ◌%◌, ◌==◌, some, none, List, [], ◌∷◌, if◌then◌else◌, get_elem?, ◌≡◌,
}
use Prim.Native.String.{String}

abbrev pub payment_breaker : BreakerConfig
payment_breaker = record no_breaker_config {
  name = "payment-service";
  failure_rate_threshold = 50;
  minimum_number_of_calls = 5;
  timeout = seconds 10;
}

module _ {ℓ κ} {F : Type ℓ} (float : Float64 F) {S : Type κ} (clock : Clock S) where
  -- The callbacks over a breaker in its cell: State, as an integer, and GetMetrics.
  unfoldable pub read_state : Cell S CircuitBreaker → S → ℤ × S
  unfolding get_state_unsafe
  read_state cell s =
      let (now, s₁) = clock s in
      let cb = get_state_unsafe now (cell.get s₁) in (pos (state_code cb.state), cell.put cb s₁)

  unfoldable pub read_metrics : Cell S CircuitBreaker → S → BreakerNumbers F × S
  unfolding get_metrics
  read_metrics cell s =
      let (now, s₁) = clock s in
      let (m, cb) = get_metrics float now (cell.get s₁) in
      (
        record {
          failure_rate = m.failure_rate;
          slow_call_rate = m.slow_call_rate;
          total_calls = m.total_calls;
          total_successes = m.total_successes;
          total_failures = m.total_failures;
          total_rejected = m.total_rejected;
          total_slow_calls = m.total_slow_calls;
          state_transitions = m.state_transitions;
        },
        cell.put cb s₁,
      )

  -- The objects, in the order in which they are made.
  unfoldable pub make_observed :
      BreakerConfig → Cell S CircuitBreaker → Cell S (TokenBucket F) → Cell S Bulkhead → S → S
  unfolding new_breaker new_token_bucket new_bulkhead
  make_observed config breaker limiter slots s =
      let (now, s₁) = clock (breaker.put (new_breaker config) s) in
      slots.put (new_bulkhead (bulkhead_literal (pos 50) (pos 0)))
        (limiter.put (new_token_bucket float now (float.of_uint 100) (pos 200)) s₁)

  -- The registry that reads them.
  unfoldable pub observed_registry :
      (ℤ → String)
      → String
      → Cell S CircuitBreaker
      → Cell S (TokenBucket F)
      → Cell S Bulkhead
      → Registry S F
  unfolding new_default_registry register_breaker register_rate_limiter register_bulkhead read_state
      read_metrics
  observed_registry show name breaker limiter slots =
      register_bulkhead float show clock "db-pool" (reading slots bulkhead_numbers) (
        register_rate_limiter float show clock "api-limiter" (reading limiter (λ tb. tb.rate))
          (reading limiter (λ tb. tb.burst))
          (register_breaker float show clock name (read_state breaker) (read_metrics breaker)
            new_default_registry))

  -- One round of the simulated traffic; `sleep` is `time.Sleep`.
  unfoldable pub traffic_call : (Duration → S → S) → Cell S CircuitBreaker → ℕ → Proc S (Unit {0})
  unfolding breaker_execute
  traffic_call sleep cell i s =
      let answer : Proc S (Outcome String) =
        λ t. returned (if i % 10 == 0 then (none, some (other i)) else (some "ok", none)) t in
      elim (breaker_execute float cell clock answer s) [
        | returned r s' ↦ returned tt (sleep (pos (100 * millisecond)) s')
        | panicked s' ↦ panicked s'
      ]

  unfoldable pub traffic : (Duration → S → S) → Cell S CircuitBreaker → Proc S (Unit {0})
  unfolding repeat traffic_call
  traffic sleep cell = repeat 100 0 (traffic_call sleep cell)

-- The health check; a text is its bytes.
unfoldable pub health {ℓ κ} : {R : Type ℓ} {S : Type κ} → (String → List ℕ) → Handler R S
health bytes r s = record { events = header 200 ∷ body (bytes "OK") ∷ []; exit = returned tt s }

-- Whatever has become of the objects, the samples that the example serves at once have one type for
-- each name.
observed_registry-IsTyped {ℓ κ} :
    {F : Type ℓ} (float : Float64 F) {S : Type κ} (clock : Clock S) (show : ℤ → String)
    (name : String) (breaker : Cell S CircuitBreaker) (limiter : Cell S (TokenBucket F))
    (slots : Cell S Bulkhead) (s : S) (i j : ℕ) (a b : MetricSample F)
    → get_elem? (gather (observed_registry float clock show name breaker limiter slots) s).0 i
      ≡ some a
    → get_elem? (gather (observed_registry float clock show name breaker limiter slots) s).0 j
      ≡ some b
    → a.name ≡ b.name
    → a.kind ≡ b.kind
unfolding observed_registry new_default_registry
observed_registry-IsTyped float clock show name breaker limiter slots =
    gather-IsTyped float show clock _ (
      with_bulkhead "db-pool" (reading slots bulkhead_numbers) (
        with_rate_limiter "api-limiter" (reading limiter (λ tb. tb.rate))
          (reading limiter (λ tb. tb.burst))
          (with_breaker name (read_state float clock breaker) (read_metrics float clock breaker)
            (fresh "goshield"))))
