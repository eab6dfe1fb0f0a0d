-- ===== src/Public/Metrics.antt =====
-- The public registry (pkg/metrics/metrics.go), which registers collectors by the callbacks that
-- they read.
use goshield_bootcamp.Bulkhead.Core.{Bulkhead}
use goshield_bootcamp.Timeout.{Timeout}
use goshield_bootcamp.Metrics.Registry.{
  gather, prefixed, gather-register, Registry, new_registry, register,
}
use goshield_bootcamp.Metrics.Collectors.{
  RetryNumbers, collect_rate_limiter, collect_timeout, collect_breaker, BulkheadNumbers,
  collect_retry, BreakerNumbers, TimeoutNumbers, collect_bulkhead,
}
use goshield_bootcamp.Metrics.Sample.{MetricSample, Collector}
use goshield_bootcamp.Base.Go.{Cell, Time, Clock}
use goshield_bootcamp.Base.Float.{Float64}
use goshield_bootcamp.Base.Int.{◌-ℤ◌, pos, ℤ}
use goshield_bootcamp.Base.{◌≡◌, ◌++◌, map, Option, none, some, List}
use Prim.Native.String.{String}

-- A collector of internal/metrics/collectors.go: it reads the clock, and then its callbacks.
abbrev pub collect_with {ℓ κ μ} :
    {S : Type ℓ} {F : Type κ} {N : Type μ}
    → Clock S
    → (S → N × S)
    → (N → Time → List (MetricSample F))
    → Collector S F
collect_with clock read collect s =
    let (ts, s₁) = clock s in let (n, s₂) = read s₁ in (collect n ts, s₂)

-- Two callbacks, the second after the first.
abbrev pub then_read {ℓ κ μ} :
    {S : Type ℓ} {M : Type κ} {N : Type μ} → (S → M × S) → (S → N × S) → S → (M × N) × S
then_read f g s = let (m, s₁) = f s in let (n, s₂) = g s₁ in ((m, n), s₂)

-- `MustRegister`, where nil is `none`; `none` is its panic.
unfoldable pub must_register {ℓ κ} :
    {S : Type ℓ} {F : Type κ} → Option (Collector S F) → Registry S F → Option (Registry S F)
unfolding register
must_register none r = none
must_register (some c) r = some (register c r)

module _ {ℓ κ} {S : Type ℓ} {F : Type κ} where
  -- `NewRegistry`
  unfoldable pub new_default_registry : Registry S F
  unfolding new_registry
  new_default_registry = new_registry "goshield"

module _ {ℓ κ} {S : Type ℓ} {F : Type κ} (float : Float64 F) (show : ℤ → String) (clock : Clock S)
    (name : String) where
  unfoldable pub register_breaker :
      (S → ℤ × S) → (S → BreakerNumbers F × S) → Registry S F → Registry S F
  unfolding register collect_breaker
  register_breaker state metrics r =
      register
        (collect_with clock (then_read metrics state)
          (λ (m, st). collect_breaker float show name st m))
        r

  unfoldable pub register_rate_limiter : (S → F × S) → (S → ℤ × S) → Registry S F → Registry S F
  unfolding register collect_rate_limiter
  register_rate_limiter rate burst r =
      register
        (collect_with clock (then_read rate burst)
          (λ (x, b). collect_rate_limiter float show name x b))
        r

  unfoldable pub register_bulkhead : (S → BulkheadNumbers × S) → Registry S F → Registry S F
  unfolding register collect_bulkhead
  register_bulkhead metrics r =
      register (collect_with clock metrics (collect_bulkhead float show name)) r

  unfoldable pub register_retry : (S → RetryNumbers × S) → Registry S F → Registry S F
  unfolding register collect_retry
  register_retry metrics r = register (collect_with clock metrics (collect_retry float show name)) r

  unfoldable pub register_timeout : (S → TimeoutNumbers × S) → Registry S F → Registry S F
  unfolding register collect_timeout
  register_timeout metrics r =
      register (collect_with clock metrics (collect_timeout float show name)) r

-- `GetMetricsForCollection` of internal/bulkhead/bulkhead.go: what a bulkhead is registered with.
unfoldable pub bulkhead_numbers : Bulkhead → BulkheadNumbers
unfolding ◌-ℤ◌
bulkhead_numbers b = record {
  available = b.config.max_concurrent -ℤ pos b.active_count;
  max_concurrent = b.config.max_concurrent;
  total_executions = pos b.total_calls;
  total_rejections = pos b.total_rejected;
  current_running = pos b.active_count;
}

-- `GetMetrics` of internal/timeout/timeout.go.
unfoldable pub timeout_numbers : Timeout → TimeoutNumbers
timeout_numbers t = record {
  total_calls = t.total_calls;
  total_timeouts = t.total_timeouts;
  total_successes = t.total_success;
}

-- A field of the bulkhead, read where it lives.
abbrev pub reading {ℓ κ μ} : {S : Type ℓ} {B : Type κ} {N : Type μ} → Cell S B → (B → N) → S → N × S
reading cell f s = (f (cell.get s), s)

-- A registry with a bulkhead and the numbers that it gives out itself gathers, after what it
-- gathered before, the five samples of the bulkhead as it is then, under the namespace.
gather-register_bulkhead {ℓ κ} :
    {S : Type ℓ} {F : Type κ} (float : Float64 F) (show : ℤ → String) (clock : Clock S)
    (name : String) (cell : Cell S Bulkhead) (r : Registry S F) (s : S)
    → let (held, s₁) = gather r s in
      let (ts, s₂) = clock s₁ in
      gather (register_bulkhead float show clock name (reading cell bulkhead_numbers) r) s ≡ (
        held
            ++ map
                (prefixed r.namespace)
                (collect_bulkhead float show name (bulkhead_numbers (cell.get s₂)) ts),
        s₂,
      )
unfolding register_bulkhead
gather-register_bulkhead float show clock name cell r s =
    gather-register r
      (collect_with clock (reading cell bulkhead_numbers) (collect_bulkhead float show name)) s
