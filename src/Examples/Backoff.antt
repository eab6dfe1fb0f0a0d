-- ===== src/Examples/Backoff.antt =====
-- The retries at concrete inputs.
use goshield_bootcamp.Backoff.Strategy.{
  FibonacciBackoff, FixedBackoff, fixed_next, fixed_strategy, fibonacci_next,
}
use goshield_bootcamp.Backoff.Fibonacci.{fibonacci_next-fib, fib}
use goshield_bootcamp.Backoff.Retry.{execute_from}
use goshield_bootcamp.Backoff.Attempts.{
  always_fails_attempts, plain, execute_from_total, fixed-IsFinite, no_cancel, always_fails,
}
use goshield_bootcamp.Base.Go.{returned, Outcome, Exit, join, max_retries_exceeded, other}
use goshield_bootcamp.Base.Int.{pos}
use goshield_bootcamp.Base.{ℕ, ◌≡◌, refl, none, some, arith}

-- One hour at most, and ten retries.
abbrev growing : FibonacciBackoff
growing = record {
  initial_interval = pos 1000;
  max_interval = pos 3600000000000;
  max_retry_count = pos 10;
}

fibonacci_next-fib_example : fibonacci_next growing 3 ≡ pos 5000
unfolding fib
fibonacci_next-fib_example =
    fibonacci_next-fib growing 1000 3600000000000 3 refl (omega arith) refl (omega arith)
      (omega arith)

abbrev twice : FixedBackoff
twice = record { interval = pos 7; max_retry_count = pos 2 }

execute_from_total_example :
    (x : Exit ℕ (Outcome ℕ)) × (execute_from
        (plain (fixed_strategy twice))
        no_cancel
        3
        0
        (always_fails (other 1))
        0
      ≡ some x)
execute_from_total_example =
    execute_from_total (plain (fixed_strategy twice)) no_cancel 2 3 0 (fixed-IsFinite twice 2 refl)
      (omega arith) (omega arith) (always_fails (other 1)) 0

always_fails_attempts_example :
    execute_from {A = ℕ} (plain (fixed_strategy twice)) no_cancel 3 0 (always_fails (other 1)) 0
    ≡ some (returned (none, some (join max_retries_exceeded (other 1))) 3)
unfolding fixed_next
always_fails_attempts_example =
    always_fails_attempts (fixed_strategy twice) (other 1) 2 2 0 0 (fixed-IsFinite twice 2 refl)
      (λ retry h. ground arith) refl
