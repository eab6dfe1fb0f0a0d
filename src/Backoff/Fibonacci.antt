-- ===== src/Backoff/Fibonacci.antt =====
-- The Fibonacci delays against the Fibonacci numbers (internal/backoff/backoff.go).
use native.Mathlib.Nat.{add_comm}
use Prim.Native.Nat.{min}
use native.Mathlib.Decide.{dec_lt}
use goshield_bootcamp.Backoff.Strategy.{fibonacci_next, fibonacci, FibonacciBackoff, fib_loop}
use goshield_bootcamp.Base.Int.{
  *ℤ-pos, +ℤ-pos, wrap64_high, wrap64_small, ◌+ℤ◌, ltb_ℤ, ◌≤ℤ◌, pos, wrap64,
}
use goshield_bootcamp.Base.{◌*◌, true, ℕ, zero, suc, ◌+◌, ◌^◌, ◌≤◌, ◌<◌, ◌≡◌, arith}

-- 0, 1, 1, 2, 3, 5, …
unfoldable pub fib : ℕ → ℕ
fib zero = 0
fib (suc zero) = 1
fib (suc (suc n)) = fib (suc n) + fib n

fib-le-suc : (n : ℕ) → fib n ≤ fib (suc n)
unfolding fib
fib-le-suc zero = omega arith
fib-le-suc (suc n) = omega arith

fib_mono : (m n : ℕ) → m ≤ n → fib m ≤ fib n
fib_mono m zero h = let e : m ≡ 0 = omega arith in rw e (omega arith)
fib_mono m (suc n) h = elim (dec_lt n m) [
  | yes above ↦ let e : m ≡ suc n = omega arith in rw e (omega arith)
  | no below ↦ omega (arith, fib_mono m n (omega arith), fib-le-suc n)
]

-- One round of the loop, while the sum fits an int64.
round-fib :
    (i : ℕ)
    → fib (suc (suc i)) < 2 ^ 63
    → wrap64 (pos (fib i) +ℤ pos (fib (suc i))) ≡ pos (fib (suc (suc i)))
unfolding fib
round-fib i h =
    rw (+ℤ-pos (fib i) (fib (suc i)), add_comm (fib i) (fib (suc i)))
      (wrap64_small (fib (suc (suc i))) h)

fib_loop-fib :
    (k i n : ℕ)
    → n ≡ k + suc i
    → fib n < 2 ^ 63
    → fib_loop k (pos (fib i)) (pos (fib (suc i))) ≡ pos (fib n)
unfolding fib_loop
fib_loop-fib zero i n e h = let same : n ≡ suc i = omega arith in rw same
fib_loop-fib (suc k) i n e h =
    rw (round-fib i (omega (arith, fib_mono (suc (suc i)) n (omega arith))))
      (fib_loop-fib k (suc i) n (omega arith) h)

fibonacci-fib : (k : ℕ) → fib (suc k) < 2 ^ 63 → fibonacci (suc k) ≡ pos (fib (suc k))
unfolding fibonacci fib
fibonacci-fib k h = fib_loop-fib k 0 (suc k) (omega arith) h

le-mul : (n k : ℕ) → 0 < n → k ≤ n * k
le-mul n k h = grind arith

-- For an initial interval of n > 0 nanoseconds and a maximum interval that is not negative, before
-- the retries run out, the delay is n times the Fibonacci number fib (retry + 2), or the maximum
-- interval if that is less, as long as the product is below 2 ^ 63.
pub fibonacci_next-fib :
    (b : FibonacciBackoff) (n m retry : ℕ)
    → b.initial_interval ≡ pos n
    → 0 < n
    → b.max_interval ≡ pos m
    → pos (retry + 1) ≤ℤ b.max_retry_count
    → n * fib (suc (suc retry)) < 2 ^ 63
    → fibonacci_next b retry ≡ pos (min (n * fib (suc (suc retry))) m)
unfolding fibonacci_next
fibonacci_next-fib b n m retry en p em more fits =
    let f = fib (suc (suc retry)) in
    ground
      (arith, fibonacci-fib (suc retry), le-mul n f p, *ℤ-pos n f, wrap64_small (n * f), en, em)

-- For an initial interval of n nanoseconds and a maximum interval that is not negative, before the
-- retries run out: where the factor fib (retry + 2) is below 2 ^ 63 and its product with n is from
-- 2 ^ 63 up to 2 ^ 64, the delay returned is negative.
pub fibonacci_next_overflows :
    (b : FibonacciBackoff) (n m retry : ℕ)
    → b.initial_interval ≡ pos n
    → b.max_interval ≡ pos m
    → pos (retry + 1) ≤ℤ b.max_retry_count
    → fib (suc (suc retry)) < 2 ^ 63
    → 2 ^ 63 ≤ n * fib (suc (suc retry))
    → n * fib (suc (suc retry)) < 2 ^ 64
    → ltb_ℤ (fibonacci_next b retry) (pos 0) ≡ true
unfolding fibonacci_next
fibonacci_next_overflows b n m retry en em more f' low high =
    let f = fib (suc (suc retry)) in
    let (k, wrapped) = wrap64_high (n * f) low high in
    ground (arith, fibonacci-fib (suc retry) f', *ℤ-pos n f, wrapped)
