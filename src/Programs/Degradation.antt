-- ===== src/Programs/Degradation.antt =====
-- The services, the chain of executors and the served metrics of the advanced example
-- (examples/advanced/main.go).
use goshield_bootcamp.Programs.Advanced.{
  Chance, simulate_service_call, payment_breaker, analytics_breaker, adaptive_part, primary_options,
  full_options,
}
use goshield_bootcamp.Programs.Observed.{read_state, observed_registry}
use goshield_bootcamp.Programs.Literals.{bulkhead_literal, repeat, act, discard, ◌>>◌}
use goshield_bootcamp.Resilience.Executor.{Executor, Runtime, execute as executor_execute}
use goshield_bootcamp.Breaker.Core.{CircuitBreaker, new as new_breaker}
use goshield_bootcamp.Breaker.Execute.{execute as breaker_execute}
use goshield_bootcamp.Metrics.Exposition.{Answer, serve_metrics}
use goshield_bootcamp.Resilience.Options.{new_executor}
use goshield_bootcamp.RateLimit.TokenBucket.{TokenBucket, new_token_bucket}
use goshield_bootcamp.Bulkhead.Core.{Bulkhead, new as new_bulkhead}
use goshield_bootcamp.Breaker.Adaptive.{AdaptiveBreaker}
use goshield_bootcamp.Breaker.Params.{AdaptiveParams}
use goshield_bootcamp.Base.Int.{ℤ, pos}
use goshield_bootcamp.Metrics.Labels.{Format}
use goshield_bootcamp.Base.Go.{Proc, returned, panicked, Outcome, GoError, Clock, Cell, Time}
use goshield_bootcamp.Base.Float.{Float64}
use goshield_bootcamp.Base.{ℕ, Option, none, some, List, [], ◌∷◌}
use Prim.Native.String.{String, ◌++◌ as ◌<>◌}

pub data Line {ℓ} (A : Type ℓ) : Type ℓ where
  trying : String → Line A
  failed : String → GoError → Line A
  succeeded : String → Option A → Line A

-- A service by its name and the run of its executor.
pub record Service {ℓ κ} (S : Type ℓ) (A : Type κ) : Type (ℓ ⊔ κ) where
  pub name : String
  pub run : Proc S (Outcome A)

module _ {ℓ κ} {S : Type ℓ} {A : Type κ} (print : Line A → S → S) where
  -- The loop over the services, which ends at the first that succeeds.
  unfoldable pub try_each : List (Service S A) → Proc S (Unit {0})
  try_each [] s = returned tt s
  try_each (svc ∷ rest) s = elim (svc.run (print (trying svc.name) s)) [
    | panicked s' ↦ panicked s'
    | returned (v, some err) s' ↦ try_each rest (print (failed svc.name err) s')
    | returned (v, none) s' ↦ returned tt (print (succeeded svc.name v) s')
  ]

-- The writer that captures a response.
pub record MockResponseWriter : Type 0 where
  pub header : List (String × String)
  pub body : String
  pub code : ℕ

unfoldable pub write : String → MockResponseWriter → MockResponseWriter
write b m = record m { body = m.body <> b }

unfoldable pub write_header : ℕ → MockResponseWriter → MockResponseWriter
write_header code m = record m { code = code }

-- What the handler of the metrics answers, captured by a new writer; of the headers, that of the
-- length is in the answer.
unfoldable pub capture : Answer → MockResponseWriter
unfolding write write_header
capture a =
    let m = write_header a.status (record { header = []; body = ""; code = 0 }) in
    elim a.written [ none ↦ m | some text' ↦ write text' m ]

module _ {ℓ κ} {F : Type ℓ} (float : Float64 F) {S : Type κ} (clock : Clock S)
    (chance : Chance S F) where
  -- One round of the traffic of the two breakers.
  unfoldable pub service_calls :
      Cell S CircuitBreaker → Cell S CircuitBreaker → ℕ → Proc S (Unit {0})
  unfolding breaker_execute simulate_service_call
  service_calls payment analytics i =
      (λ s. discard (
        breaker_execute float payment clock (simulate_service_call float chance (float.literal 1 5))
          s))
      >> (λ s. discard (
          breaker_execute float analytics clock
            (simulate_service_call float chance (float.literal 1 2)) s))

  -- `print` takes the state of each breaker, as a number.
  unfoldable pub services_part :
      (String → ℤ → S → S) → Cell S CircuitBreaker → Cell S CircuitBreaker → Proc S (Unit {0})
  unfolding new_breaker repeat service_calls read_state
  services_part print payment analytics =
      act (payment.put (new_breaker payment_breaker))
      >> act (analytics.put (new_breaker analytics_breaker))
      >> repeat 20 0 (service_calls payment analytics)
      >> act (λ s. let (c, s') = read_state float clock payment s in print "Payment" c s')
      >> act (λ s. let (c, s') = read_state float clock analytics s in print "Analytics" c s')

  -- The chain from the strict executor to the one with all patterns.
  unfoldable pub degradation_part :
      (Line Time → S → S) → Runtime S Time → Executor S Time → Executor S Time → Proc S (Unit {0})
  unfolding executor_execute simulate_service_call try_each
  degradation_part print rt primary full = try_each print (
      record {
        name = "primary";
        run =
            executor_execute float rt primary
              (simulate_service_call float chance (float.literal 7 10));
      }
      ∷ record {
        name = "full-resilience";
        run =
            executor_execute float rt full (simulate_service_call float chance (float.literal 1 5));
      }
      ∷ [])

  -- The objects that are observed, ten calls more, and what the handler of the registry then
  -- answers the writer.
  unfoldable pub metrics_part :
      Format F
      → (ℤ → String)
      → (String → S → S)
      → Cell S CircuitBreaker
      → Cell S (TokenBucket F)
      → Cell S Bulkhead
      → Proc S (Unit {0})
  unfolding repeat breaker_execute simulate_service_call serve_metrics capture observed_registry
      new_token_bucket new_bulkhead
  metrics_part format show print payment limiter slots =
      act (λ s.
        let (now, s') = clock s in
        limiter.put (new_token_bucket float now (float.of_uint 100) (pos 200)) s')
      >> act (slots.put (new_bulkhead (bulkhead_literal (pos 50) (pos 0))))
      >> repeat 10 0 (λ i s. discard (
          breaker_execute float payment clock
            (simulate_service_call float chance (float.literal 3 10)) s))
      >> act (λ s.
        let registry =
          observed_registry float clock show payment_breaker.name payment limiter slots in
        let (answer, s') = serve_metrics format registry s in print (capture answer).body s')

-- The lines that format values.
pub data Printed {ℓ} (F : Type ℓ) : Type ℓ where
  state_line : String → ℤ → Printed F
  params_line : AdaptiveParams F → Printed F
  retry_line : ℕ → GoError → Printed F
  chain_line : Line Time → Printed F
  exposition : String → Printed F

-- The variables of `main`, and the objects that its options make.
pub record Objects {ℓ κ} (S : Type ℓ) (F : Type κ) : Type (ℓ ⊔ κ) where
  pub payment : Cell S CircuitBreaker
  pub analytics : Cell S CircuitBreaker
  pub adaptive : Cell S (AdaptiveBreaker F)
  pub primary : Cell S CircuitBreaker
  pub gateway : Cell S CircuitBreaker
  pub gateway_limiter : Cell S (TokenBucket F)
  pub gateway_slots : Cell S Bulkhead
  pub limiter : Cell S (TokenBucket F)
  pub slots : Cell S Bulkhead

module _ {ℓ κ} {F : Type ℓ} (float : Float64 F) {S : Type κ} (clock : Clock S) (chance : Chance S F)
    (print : Printed F → S → S) (objects : Objects S F) where
  -- The two executors, and the chain of them. `wait` is the method Wait of the limiter, and `drawn`
  -- what the strategy draws for each retry.
  unfoldable pub executors_part :
      Runtime S Time → (ℕ → F) → (S → Option GoError × S) → Proc S (Unit {0})
  unfolding new_executor primary_options full_options new_token_bucket degradation_part
  executors_part rt drawn wait s =
      let (primary, s₁) = new_executor (primary_options float objects.primary) s in
      let (now, s₂) = clock s₁ in
      let s₃ =
        objects.gateway_limiter.put (new_token_bucket float now (float.of_uint 100) (pos 200)) s₂ in
      let (full, s₄) =
        new_executor
          (full_options float drawn (λ retry err. print (retry_line retry err)) objects.gateway
            objects.gateway_slots wait)
          s₃ in
      degradation_part float clock chance (λ l. print (chain_line l)) rt primary full s₄

  -- `main`
  unfoldable pub main :
      Runtime S Time
      → (ℕ → F)
      → (S → Option GoError × S)
      → Format F
      → (ℤ → String)
      → Proc S (Unit {0})
  unfolding services_part adaptive_part executors_part metrics_part
  main rt drawn wait format show =
      services_part float clock chance (λ name c. print (state_line name c)) objects.payment
        objects.analytics
      >> adaptive_part float clock chance objects.adaptive (λ p. print (params_line p))
      >> executors_part rt drawn wait
      >> metrics_part float clock chance format show (λ t. print (exposition t)) objects.payment
          objects.limiter objects.slots
