-- ===== src/Programs/Command.antt =====
-- The command (cmd/goshield/main.go), over any state of the program in which its objects have their
-- cells. What is printed acts on the state by `print`, as lines that hold the values they format.
use goshield_bootcamp.Programs.Literals.{
  no_breaker_config, bulkhead_literal, retry_literal, act, repeat, discard, ◌>>◌,
}
use goshield_bootcamp.Resilience.Options.{
  Setter, new_executor, with_circuit_breaker, with_retry, with_rate_limiter, with_timeout,
  with_bulkhead,
}
use goshield_bootcamp.Resilience.Executor.{Runtime, execute as executor_execute}
use goshield_bootcamp.Backoff.Strategy.{fixed_strategy}
use goshield_bootcamp.Breaker.Config.{Config as BreakerConfig}
use goshield_bootcamp.Breaker.Core.{CircuitBreaker, new as new_breaker}
use goshield_bootcamp.Breaker.Execute.{execute as breaker_execute}
use goshield_bootcamp.Bulkhead.Core.{Bulkhead, new as new_bulkhead, get_metrics}
use goshield_bootcamp.RateLimit.TokenBucket.{TokenBucket, new_token_bucket, allow}
use goshield_bootcamp.Base.Go.{
  Proc, Exit, returned, panicked, Outcome, GoError, other, Clock, Cell, Duration, since, second,
  millisecond,
}
use goshield_bootcamp.Base.Float.{Float64}
use goshield_bootcamp.Base.Int.{ℤ, pos}
use goshield_bootcamp.Base.{ℕ, ◌*◌, Bool, Option, none, some, List, [], ◌∷◌, ltb, if◌then◌else◌}
use Prim.Native.String.{String}
use text.Mathlib.Text.{◌==◌}

pub data Line {ℓ} (F : Type ℓ) : Type ℓ where
  plain : String → Line F
  call_line : ℕ → Option GoError → Line F
  request_line : ℕ → Bool → Line F
  slots_line : ℤ → Line F
  -- The JSON of the benchmark: the iterations, their duration and the rate.
  result_line : ℕ → Duration → F → Line F

-- The configuration of the breaker under test.
abbrev pub test_breaker : BreakerConfig
test_breaker = record no_breaker_config {
  name = "test-cb";
  failure_rate_threshold = 50;
  minimum_number_of_calls = 3;
}

abbrev pub bench_breaker : BreakerConfig
bench_breaker = record no_breaker_config {
  name = "bench-cb";
  failure_rate_threshold = 50;
  minimum_number_of_calls = 100;
}

-- The function of the call `i`; `fmt.Errorf("error %d", i)` is the error number `i`.
abbrev pub nth_call {ℓ} : {S : Type ℓ} → ℕ → Proc S (Outcome String)
nth_call i s = returned (if ltb i 3 then (none, some (other i)) else (some "ok", none)) s

module _ {ℓ κ} {F : Type ℓ} (float : Float64 F) {S : Type κ} (print : Line F → S → S)
    (clock : Clock S) where
  abbrev pub say : String → Proc S (Unit {0})
  say text' = act (print (plain text'))

  unfoldable pub print_usage : Proc S (Unit {0})
  print_usage =
      say "GoShield - Unified Resilience Toolkit for Go"
      >> say ""
      >> say "Usage:"
      >> say "  goshield version    Print version"
      >> say "  goshield test       Test resilience patterns"
      >> say "  goshield benchmark  Run benchmarks"

  -- One round of the breaker's loop.
  unfoldable pub test_call : Cell S CircuitBreaker → ℕ → Proc S (Unit {0})
  unfolding breaker_execute
  test_call cell i s = elim (breaker_execute float cell clock (nth_call i) s) [
    | returned r s' ↦ returned tt (print (call_line i r.1) s')
    | panicked s' ↦ panicked s'
  ]

  unfoldable pub test_request : Cell S (TokenBucket F) → ℕ → Proc S (Unit {0})
  unfolding allow
  test_request cell i s =
      let (now, s₁) = clock s in
      let (ok, tb) = allow float now (cell.get s₁) in
      returned tt (print (request_line i ok) (cell.put tb s₁))

  unfoldable pub test_command : Cell S CircuitBreaker → Cell S (TokenBucket F) → Proc S (Unit {0})
  unfolding new_breaker new_token_bucket test_call test_request repeat
  test_command breaker limiter =
      say "Testing GoShield resilience patterns..."
      >> say "\n1. Circuit Breaker:"
      >> act (breaker.put (new_breaker test_breaker))
      >> repeat 5 0 (test_call breaker)
      >> say "\n2. Rate Limiter:"
      >> act (λ s.
        let (now, s₁) = clock s in
        limiter.put (new_token_bucket float now (float.of_uint 5) (pos 10)) s₁)
      >> repeat 15 0 (test_request limiter)
      >> say "\n3. Bulkhead:"
      >> act (
          print (
            slots_line
              (get_metrics (new_bulkhead (bulkhead_literal (pos 2) (pos 0)))).available_slots))
      >> say "\nAll tests passed!"

  -- The options of the executor under benchmark; the limiter is its method Wait.
  unfoldable pub bench_options :
      Cell S CircuitBreaker → Cell S Bulkhead → (S → Option GoError × S) → List (Setter S String)
  unfolding with_circuit_breaker with_retry with_rate_limiter with_timeout with_bulkhead
  bench_options breaker bulkhead wait =
      with_circuit_breaker breaker bench_breaker
      ∷ with_retry (
          retry_literal (
            fixed_strategy (record { interval = pos (10 * millisecond); max_retry_count = pos 3 })))
      ∷ with_rate_limiter wait
      ∷ with_timeout (pos (5 * second))
      ∷ with_bulkhead bulkhead (bulkhead_literal (pos 1000) (pos 0))
      ∷ []

  unfoldable pub benchmark_command :
      Runtime S String
      → Cell S CircuitBreaker
      → Cell S (TokenBucket F)
      → Cell S Bulkhead
      → (S → Option GoError × S)
      → Proc S (Unit {0})
  unfolding bench_options new_executor executor_execute repeat new_token_bucket
  benchmark_command rt breaker limiter bulkhead wait s =
      let s₀ = print (plain "Running GoShield benchmarks...") s in
      let (born, s₁) = clock s₀ in
      let s₂ = limiter.put (new_token_bucket float born (float.of_uint 10000) (pos 20000)) s₁ in
      let (e, s₃) = new_executor (bench_options breaker bulkhead wait) s₂ in
      let (began, s₄) = clock s₃ in
      elim (repeat 10000 0
        (λ i s'. discard (executor_execute float rt e (λ t. returned (some "ok", none) t) s')) s₄) [
          | panicked s₅ ↦ panicked s₅
          | returned u s₅ ↦
              let (now, s₆) = clock s₅ in
              let elapsed = since now began in
              returned tt (
                print
                  (result_line 10000 elapsed
                    (float.div (float.of_int (pos 10000)) (float.seconds elapsed)))
                  s₆)
        ]

  -- `main`, of the arguments after the program's name, and the status with which it exits.
  unfoldable pub main :
      Proc S (Unit {0}) → Proc S (Unit {0}) → List String → S → ℕ × Exit S (Unit {0})
  unfolding print_usage
  main test benchmark [] s = (1, print_usage s)
  main test benchmark (arg ∷ args) s =
      if arg == "version"
      then (0, say "goshield v1.0.0" s)
      else if arg == "test"
      then (0, test s)
      else if arg == "benchmark"
      then (0, benchmark s)
      else (1, print_usage s)
