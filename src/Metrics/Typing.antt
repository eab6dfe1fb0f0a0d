-- ===== src/Metrics/Typing.antt =====
-- The types of the metrics (internal/metrics/collectors.go, pkg/metrics/metrics.go): each name has
-- one of them, whichever patterns a registry holds.
use goshield_bootcamp.Metrics.Sample.{MetricSample, MetricType, counter, gauge}
use goshield_bootcamp.Metrics.Registry.{prefixed}
use goshield_bootcamp.Metrics.Collectors.{
  collect_breaker, collect_adaptive, collect_rate_limiter, collect_bulkhead, collect_retry,
  collect_timeout, BreakerNumbers, AdaptiveNumbers, BulkheadNumbers, RetryNumbers, TimeoutNumbers,
}
use goshield_bootcamp.Base.Go.{Time}
use goshield_bootcamp.Base.Float.{Float64}
use goshield_bootcamp.Base.Int.{ℤ}
use goshield_bootcamp.Base.{
  ◌≡◌, Bool, true, false, Option, none, some, List, [], ◌∷◌, map, All, arith, sym, ◌∙◌,
  if◌then◌else◌,
}
use Prim.Native.String.{String, ◌++◌ as ◌<>◌}
use text.Mathlib.Text.{◌==◌}
use text.Mathlib.TextLemmas.{append_cancel_left}

-- The type of each name that a collector of a pattern gives.
abbrev pub schema : List (String × MetricType)
schema =
    ("breaker_state", gauge)
    ∷ ("breaker_failure_rate", gauge)
    ∷ ("breaker_slow_call_rate", gauge)
    ∷ ("breaker_calls_total", gauge)
    ∷ ("breaker_successes_total", counter)
    ∷ ("breaker_failures_total", counter)
    ∷ ("breaker_rejected_total", counter)
    ∷ ("breaker_slow_calls_total", counter)
    ∷ ("breaker_state_transitions_total", counter)
    ∷ ("breaker_adaptive_failure_rate_ema", gauge)
    ∷ ("breaker_adaptive_threshold", gauge)
    ∷ ("breaker_adaptive_latency_ema_ns", gauge)
    ∷ ("breaker_adaptive_consecutive_failures", gauge)
    ∷ ("breaker_adaptive_trip_count", counter)
    ∷ ("ratelimit_rate", gauge)
    ∷ ("ratelimit_burst", gauge)
    ∷ ("bulkhead_available_permits", gauge)
    ∷ ("bulkhead_max_concurrent", gauge)
    ∷ ("bulkhead_running", gauge)
    ∷ ("bulkhead_executions_total", counter)
    ∷ ("bulkhead_rejections_total", counter)
    ∷ ("retry_attempts_total", counter)
    ∷ ("retry_successes_total", counter)
    ∷ ("retry_retries_total", counter)
    ∷ ("timeout_calls_total", counter)
    ∷ ("timeout_timeouts_total", counter)
    ∷ ("timeout_successes_total", counter)
    ∷ []

abbrev pub find : String → List (String × MetricType) → Option MetricType
find n [] = none
find n ((m, t) ∷ rest) = if n == m then some t else find n rest

-- The name under a namespace.
abbrev pub qualified : String → String → String
qualified ns n = if ns == "" then n else ns <> "_" <> n

module _ {ℓ} {F : Type ℓ} where
  -- A sample has the type of its name.
  abbrev pub IsTyped : MetricSample F → Type 0
  IsTyped s = find s.name schema ≡ some s.kind

  abbrev pub IsTypedUnder : String → MetricSample F → Type 0
  IsTypedUnder ns s = (n : String) × (s.name ≡ qualified ns n) × (find n schema ≡ some s.kind)

  prefixed-IsTypedUnder :
      (ns : String) (s : MetricSample F) → IsTyped s → IsTypedUnder ns (prefixed ns s)
  unfolding prefixed
  prefixed-IsTypedUnder ns s h = (s.name, ground arith, ground arith)

  pub map-IsTypedUnder :
      (ns : String) (ss : List (MetricSample F))
      → All IsTyped ss
      → All (IsTypedUnder ns) (map (prefixed ns) ss)
  map-IsTypedUnder ns [] h = tt
  map-IsTypedUnder ns (s ∷ ss) (h, hs) = (prefixed-IsTypedUnder ns s h, map-IsTypedUnder ns ss hs)

qualified_by :
    (bare : Bool) (ns m n : String)
    → (if bare then m else ns <> "_" <> m) ≡ (if bare then n else ns <> "_" <> n)
    → m ≡ n
qualified_by true ns m n h = h
qualified_by false ns m n h =
    append_cancel_left "_" m n (append_cancel_left ns ("_" <> m) ("_" <> n) h)

module _ {ℓ} {F : Type ℓ} where
  pub same_name-same_kind :
      (ns : String) (a b : MetricSample F)
      → IsTypedUnder ns a
      → IsTypedUnder ns b
      → a.name ≡ b.name
      → a.kind ≡ b.kind
  same_name-same_kind ns a b (m, p, h) (n, q, k) e =
      let same = qualified_by (ns == "") ns m n (sym p ∙ e ∙ q) in cc

-- Every sample that a collector of a pattern gives has the type of its name.
module _ {ℓ} {F : Type ℓ} (float : Float64 F) (show : ℤ → String) (name : String) where
  pub collect_breaker-IsTyped :
      (state : ℤ) (m : BreakerNumbers F) (ts : Time)
      → All IsTyped (collect_breaker float show name state m ts)
  unfolding collect_breaker
  collect_breaker-IsTyped state m ts = ground arith

  pub collect_adaptive-IsTyped :
      (state : ℤ) (m : BreakerNumbers F) (p : AdaptiveNumbers F) (ts : Time)
      → All IsTyped (collect_adaptive float show name state m p ts)
  unfolding collect_adaptive
  collect_adaptive-IsTyped state m p ts = ground arith

  pub collect_rate_limiter-IsTyped :
      (rate : F) (burst : ℤ) (ts : Time)
      → All IsTyped (collect_rate_limiter float show name rate burst ts)
  unfolding collect_rate_limiter
  collect_rate_limiter-IsTyped rate burst ts = ground arith

  pub collect_bulkhead-IsTyped :
      (m : BulkheadNumbers) (ts : Time) → All IsTyped (collect_bulkhead float show name m ts)
  unfolding collect_bulkhead
  collect_bulkhead-IsTyped m ts = ground arith

  pub collect_retry-IsTyped :
      (m : RetryNumbers) (ts : Time) → All IsTyped (collect_retry float show name m ts)
  unfolding collect_retry
  collect_retry-IsTyped m ts = ground arith

  pub collect_timeout-IsTyped :
      (m : TimeoutNumbers) (ts : Time) → All IsTyped (collect_timeout float show name m ts)
  unfolding collect_timeout
  collect_timeout-IsTyped m ts = ground arith
