-- ===== src/Resilience/Executor.antt =====
-- The executor (pkg/resilience/executor.go), over any state of the program in which the breaker and
-- the bulkhead have their cells. `Runtime` holds what the patterns take of the runtime, and the
-- fuel of the retry loop.
use goshield_bootcamp.Backoff.Attempts.{execute_from_total, IsFinite}
use Prim.Native.String.{String}
use goshield_bootcamp.Backoff.Retry.{RetryConfig, execute_from}
use goshield_bootcamp.Bulkhead.Execute.{Selected}
use goshield_bootcamp.Bulkhead.Core.{Bulkhead}
use goshield_bootcamp.Base.Go.{
  IsCell, Outcome, GoError, returned, Cell, Clock, Duration, panicked, Proc,
}
use goshield_bootcamp.Base.Float.{Float64}
use goshield_bootcamp.Breaker.Core.{before_call, CircuitBreaker}
use goshield_bootcamp.Timeout.{Race, Config as TimeoutConfig, execute as timeout_execute}
use goshield_bootcamp.Fallback.{Config as FallbackConfig, execute as fallback_execute}
use goshield_bootcamp.Breaker.Execute.{execute_refused, execute as breaker_execute}
use goshield_bootcamp.Bulkhead.Execute.{execute as bulkhead_execute}
use goshield_bootcamp.Base.{◌<◌, ◌≡◌, refl, arith, ℕ, Option, none, some, List, [], ◌∷◌}

pub record Runtime {ℓ μ} (S : Type ℓ) (A : Type μ) : Type (ℓ ⊔ μ) where
  pub clock : Clock S
  pub sleep : Duration → S → Option GoError × S
  pub select : S → Selected × S
  pub race : Race S A
  pub attempts : ℕ

-- nil is `none`; the rate limiter is its method Wait.
pub record Executor {ℓ μ} (S : Type ℓ) (A : Type μ) : Type (ℓ ⊔ μ) where
  pub circuit_breaker : Option (Cell S CircuitBreaker)
  pub retry_config : Option (RetryConfig S)
  pub rate_limiter : Option (S → Option GoError × S)
  pub timeout_config : Option (TimeoutConfig S)
  pub bulkhead : Option (Cell S Bulkhead)
  pub fallback_config : Option (FallbackConfig S A)

-- `if p != nil { exec = wrap(p, exec) }`
abbrev pub apply_if {ℓ κ} : {P : Type ℓ} {X : Type κ} → Option P → (P → X → X) → X → X
apply_if none wrap exec = exec
apply_if (some p) wrap exec = wrap p exec

-- `Patterns`
unfoldable pub patterns {ℓ μ} : {S : Type ℓ} {A : Type μ} → Executor S A → List String
patterns e =
    apply_if e.fallback_config (λ _ xs. "fallback" ∷ xs)
      (apply_if e.circuit_breaker (λ _ xs. "circuit-breaker" ∷ xs)
        (apply_if e.retry_config (λ _ xs. "retry" ∷ xs)
          (apply_if e.rate_limiter (λ _ xs. "rate-limiter" ∷ xs)
            (apply_if e.timeout_config (λ _ xs. "timeout" ∷ xs)
              (apply_if e.bulkhead (λ _ xs. "bulkhead" ∷ xs) [])))))

module _ {ℓ μ} {S : Type ℓ} {A : Type μ} where
  -- The closure around the limiter: `inner` runs only if the wait ends without an error.
  unfoldable pub limited : (S → Option GoError × S) → Proc S (Outcome A) → Proc S (Outcome A)
  limited wait inner s =
      let (err, s') = wait s in elim err [ some e ↦ returned (none, some e) s' | none ↦ inner s' ]

  -- The retry loop with the attempts of the runtime. A panic stands for running out of them, which
  -- the loop does not with more of them than the strategy has retries (`retried_completes`).
  unfoldable pub retried : Runtime S A → RetryConfig S → Proc S (Outcome A) → Proc S (Outcome A)
  retried rt c inner s = elim (execute_from c rt.sleep rt.attempts 0 inner s) [
    | none ↦ panicked s
    | some x ↦ x
  ]

module _ {ℓ κ μ} {F : Type ℓ} (float : Float64 F) {S : Type κ} {A : Type μ} (rt : Runtime S A) where
  -- Each wrapper encloses the one before it, so the bulkhead is outermost and the fallback
  -- innermost.
  unfoldable pub execute : Executor S A → Proc S (Outcome A) → Proc S (Outcome A)
  unfolding limited retried
  execute e fn =
      let exec₁ = apply_if e.fallback_config (λ c exec. fallback_execute c exec) fn in
      let exec₂ =
        apply_if e.circuit_breaker (λ cell exec. breaker_execute float cell rt.clock exec) exec₁ in
      let exec₃ = apply_if e.retry_config (retried rt) exec₂ in
      let exec₄ = apply_if e.rate_limiter limited exec₃ in
      let exec₅ = apply_if e.timeout_config (λ c exec. timeout_execute rt.race c exec) exec₄ in
      apply_if e.bulkhead (λ cell exec. bulkhead_execute cell rt.select exec) exec₅

  -- The executor of a fallback and a breaker alone.
  abbrev pub guarded_by : Cell S CircuitBreaker → FallbackConfig S A → Executor S A
  guarded_by cell c = record {
    circuit_breaker = some cell;
    retry_config = none;
    rate_limiter = none;
    timeout_config = none;
    bulkhead = none;
    fallback_config = some c;
  }

  -- With a fallback and a breaker, a call that the breaker refuses ends with the breaker's error:
  -- the fallback, whatever it is, is not asked.
  pub refused_without_fallback :
      (cell : Cell S CircuitBreaker)
      → IsCell cell
      → (c : FallbackConfig S A) (fn : Proc S (Outcome A)) (s : S) (err : GoError)
      → (before_call (rt.clock s).0 (cell.get (rt.clock s).1)).0 ≡ some err
      → (s' : S) × (execute (guarded_by cell c) fn s ≡ returned (none, some err) s')
  unfolding execute
  refused_without_fallback cell lens c fn s err h =
      let (s', e, _) = execute_refused float cell rt.clock lens (fallback_execute c fn) s err h in
      (s', e)

module _ {ℓ μ} {S : Type ℓ} {A : Type μ} (rt : Runtime S A) where
  -- A retry configuration on its own, with more attempts than its strategy has retries, runs the
  -- loop to its end.
  pub retried_completes :
      (c : RetryConfig S) (max : ℕ)
      → IsFinite max c.backoff
      → max < rt.attempts
      → (fn : Proc S (Outcome A)) (s : S)
      → execute_from c rt.sleep rt.attempts 0 fn s ≡ some (retried rt c fn s)
  unfolding retried
  retried_completes c max fin h fn s =
      let (x, e) =
        execute_from_total c rt.sleep max rt.attempts 0 fin (omega arith) (omega arith) fn s in
      rw (e, retried) refl
