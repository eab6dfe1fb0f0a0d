-- ===== src/Metrics/Names.antt =====
-- What the collectors of the patterns have in common (internal/metrics/collectors.go).
use goshield_bootcamp.Base.Float.{Float64}
use goshield_bootcamp.Base.Int.{ℤ}
use goshield_bootcamp.Base.{
  ◌≡◌, refl, Bool, true, false, not, ◌&&◌, ◌||◌, List, [], ◌∷◌, ◌++◌, length,
}
use Prim.Native.String.{String}
use text.Mathlib.Text.{◌==◌}
use goshield_bootcamp.Metrics.Collectors.{
  collect_adaptive, collect_bulkhead, collect_timeout, collect_breaker, collect_rate_limiter,
  collect_retry, BreakerNumbers, AdaptiveNumbers, BulkheadNumbers, RetryNumbers, TimeoutNumbers,
}
use goshield_bootcamp.Metrics.Sample.{MetricSample}
use goshield_bootcamp.Base.Go.{Time}

abbrev pub is_among : String → List String → Bool
is_among n [] = false
is_among n (m ∷ ms) = (n == m) || is_among n ms

-- No two are the same.
abbrev pub distinct : List String → Bool
distinct [] = true
distinct (n ∷ ns) = not (is_among n ns) && distinct ns

abbrev pub names {ℓ} : {F : Type ℓ} → List (MetricSample F) → List String
names [] = []
names (s ∷ ss) = s.name ∷ names ss

module _ {ℓ} {F : Type ℓ} (float : Float64 F) (show : ℤ → String) (name : String) where
  -- No collector of a pattern makes two samples of the same name, whatever the numbers that it
  -- reads.
  names-distinct :
      (state : ℤ) (b : BreakerNumbers F) (a : AdaptiveNumbers F) (rate : F) (burst : ℤ)
      (k : BulkheadNumbers) (r : RetryNumbers) (t : TimeoutNumbers) (ts : Time)
      → (distinct (names (collect_breaker float show name state b ts)) ≡ true)
        × (distinct (names (collect_adaptive float show name state b a ts)) ≡ true)
        × (distinct (names (collect_rate_limiter float show name rate burst ts)) ≡ true)
        × (distinct (names (collect_bulkhead float show name k ts)) ≡ true)
        × (distinct (names (collect_retry float show name r ts)) ≡ true)
        × (distinct (names (collect_timeout float show name t ts)) ≡ true)
  unfolding collect_breaker collect_adaptive collect_rate_limiter collect_bulkhead collect_retry
      collect_timeout
  names-distinct state b a rate burst k r t ts = (refl, refl, refl, refl, refl, refl)

  -- The adaptive breaker's samples are the breaker's, and five more.
  pub collect_adaptive-collect_breaker :
      (state : ℤ) (b : BreakerNumbers F) (a : AdaptiveNumbers F) (ts : Time)
      → (more : List (MetricSample F)) × (collect_adaptive float show name state b a ts
          ≡ collect_breaker float show name state b ts ++ more)
        × (length more ≡ 5)
  unfolding collect_breaker collect_adaptive
  collect_adaptive-collect_breaker state b a ts = (_, refl, refl)
