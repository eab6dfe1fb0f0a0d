-- ===== src/Public/Typed.antt =====
-- The types of what a registry gathers, however it is put together (pkg/metrics/metrics.go,
-- internal/metrics/collectors.go).
use goshield_bootcamp.Metrics.Typing.{
  IsTyped, IsTypedUnder, map-IsTypedUnder, collect_breaker-IsTyped, collect_adaptive-IsTyped,
  collect_rate_limiter-IsTyped, collect_bulkhead-IsTyped, collect_retry-IsTyped,
  collect_timeout-IsTyped, same_name-same_kind,
}
use goshield_bootcamp.Public.Metrics.{
  register_breaker, register_rate_limiter, register_bulkhead, register_retry, register_timeout,
  collect_with, then_read,
}
use goshield_bootcamp.Metrics.Collectors.{
  AdaptiveNumbers, BreakerNumbers, BulkheadNumbers, RetryNumbers, TimeoutNumbers, collect_adaptive,
  collect_breaker, collect_rate_limiter, collect_bulkhead, collect_retry, collect_timeout,
}
use goshield_bootcamp.Metrics.Registry.{
  Registry, gather, gather-register, new_registry, register, prefixed,
}
use goshield_bootcamp.Metrics.Sample.{Collector, MetricSample}
use goshield_bootcamp.Base.Go.{Clock, Time}
use goshield_bootcamp.Base.Float.{Float64}
use goshield_bootcamp.Base.Int.{ℤ}
use goshield_bootcamp.Base.{ℕ, get_elem?, All-get_elem?, some, ◌≡◌, List, [], ◌∷◌, ◌++◌, map, All}
use Prim.Native.String.{String}

module _ {ℓ κ} {S : Type ℓ} {F : Type κ} (float : Float64 F) (show : ℤ → String)
    (clock : Clock S) where
  -- The registration of a collector of an adaptive breaker.
  unfoldable pub register_adaptive :
      String → (S → (BreakerNumbers F × AdaptiveNumbers F × ℤ) × S) → Registry S F → Registry S F
  unfolding register collect_adaptive
  register_adaptive name read r =
      register (collect_with clock read (λ (m, p, st). collect_adaptive float show name st m p)) r

  -- The registries that the registrations of the patterns build.
  pub data Built : Registry S F → Type (ℓ ⊔ κ) where
    fresh : (ns : String) → Built (new_registry ns)
    with_breaker :
        {r : Registry S F} (name : String) (state : S → ℤ × S) (metrics : S → BreakerNumbers F × S)
        → Built r
        → Built (register_breaker float show clock name state metrics r)
    with_adaptive :
        {r : Registry S F} (name : String)
        (read : S → (BreakerNumbers F × AdaptiveNumbers F × ℤ) × S)
        → Built r
        → Built (register_adaptive name read r)
    with_rate_limiter :
        {r : Registry S F} (name : String) (rate : S → F × S) (burst : S → ℤ × S)
        → Built r
        → Built (register_rate_limiter float show clock name rate burst r)
    with_bulkhead :
        {r : Registry S F} (name : String) (metrics : S → BulkheadNumbers × S)
        → Built r
        → Built (register_bulkhead float show clock name metrics r)
    with_retry :
        {r : Registry S F} (name : String) (metrics : S → RetryNumbers × S)
        → Built r
        → Built (register_retry float show clock name metrics r)
    with_timeout :
        {r : Registry S F} (name : String) (metrics : S → TimeoutNumbers × S)
        → Built r
        → Built (register_timeout float show clock name metrics r)

  abbrev AllTyped : Registry S F → Type ℓ
  AllTyped r = (s : S) → All (IsTypedUnder r.namespace) (gather r s).0

  All-append :
      (ns : String) (xs ys : List (MetricSample F))
      → All (IsTypedUnder ns) xs
      → All (IsTypedUnder ns) ys
      → All (IsTypedUnder ns) (xs ++ ys)
  All-append ns [] ys h k = k
  All-append ns (x ∷ xs) ys (h, hs) k = (h, All-append ns xs ys hs k)

  new_registry-AllTyped : (ns : String) → AllTyped (new_registry ns)
  unfolding new_registry gather
  new_registry-AllTyped ns s = tt

  register-AllTyped :
      (r : Registry S F) (c : Collector S F)
      → ((s : S) → All IsTyped (c s).0)
      → AllTyped r
      → AllTyped (register c r)
  unfolding register
  register-AllTyped r c typed h s =
      let s₁ = (gather r s).1 in
      rw (gather-register r c s) (
        All-append r.namespace (gather r s).0 (map (prefixed r.namespace) (c s₁).0) (h s)
          (map-IsTypedUnder r.namespace (c s₁).0 (typed s₁)))

  collect_with-AllTyped {μ} :
      {N : Type μ} (r : Registry S F) (read : S → N × S)
      (collect : N → Time → List (MetricSample F))
      → ((n : N) (ts : Time) → All IsTyped (collect n ts))
      → AllTyped r
      → AllTyped (register (collect_with clock read collect) r)
  collect_with-AllTyped r read collect typed h =
      register-AllTyped r (collect_with clock read collect)
        (λ s. typed (read (clock s).1).0 (clock s).0) h

  Built-AllTyped : {r : Registry S F} → Built r → AllTyped r
  unfolding register_breaker register_adaptive register_rate_limiter register_bulkhead
      register_retry register_timeout
  Built-AllTyped (fresh ns) = new_registry-AllTyped ns
  Built-AllTyped (with_breaker {r} name state metrics b) =
      collect_with-AllTyped r (then_read metrics state)
        (λ (m, st). collect_breaker float show name st m)
        (λ (m, st) ts. collect_breaker-IsTyped float show name st m ts) (Built-AllTyped b)
  Built-AllTyped (with_adaptive {r} name read b) =
      collect_with-AllTyped r read (λ (m, p, st). collect_adaptive float show name st m p)
        (λ (m, p, st) ts. collect_adaptive-IsTyped float show name st m p ts) (Built-AllTyped b)
  Built-AllTyped (with_rate_limiter {r} name rate burst b) =
      collect_with-AllTyped r (then_read rate burst)
        (λ (x, b). collect_rate_limiter float show name x b)
        (λ (x, b) ts. collect_rate_limiter-IsTyped float show name x b ts) (Built-AllTyped b)
  Built-AllTyped (with_bulkhead {r} name metrics b) =
      collect_with-AllTyped r metrics (collect_bulkhead float show name)
        (collect_bulkhead-IsTyped float show name) (Built-AllTyped b)
  Built-AllTyped (with_retry {r} name metrics b) =
      collect_with-AllTyped r metrics (collect_retry float show name)
        (collect_retry-IsTyped float show name) (Built-AllTyped b)
  Built-AllTyped (with_timeout {r} name metrics b) =
      collect_with-AllTyped r metrics (collect_timeout float show name)
        (collect_timeout-IsTyped float show name) (Built-AllTyped b)

  -- However a registry is put together from registrations of patterns, and whatever these report:
  -- of all the samples that it gathers at once, any two with the same name have the same type.
  pub gather-IsTyped :
      (r : Registry S F)
      → Built r
      → (s : S) (i j : ℕ) (a b : MetricSample F) → get_elem? (gather r s).0 i ≡ some a
      → get_elem? (gather r s).0 j ≡ some b
      → a.name ≡ b.name
      → a.kind ≡ b.kind
  gather-IsTyped r built s i j a b p q e =
      let typed = Built-AllTyped built s in
      same_name-same_kind r.namespace a b (All-get_elem? _ (gather r s).0 i a typed p)
        (All-get_elem? _ (gather r s).0 j b typed q) e
