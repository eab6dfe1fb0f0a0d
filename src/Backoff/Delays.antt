-- ===== src/Backoff/Delays.antt =====
-- The delays of every strategy lie in their range, and end (internal/backoff/backoff.go).
use goshield_bootcamp.Backoff.Strategy.{
  capped_interval, exponential_random_next, ExponentialBackoff, exhausted, exponential_next,
}
use goshield_bootcamp.Base.Float.{Float64}
use goshield_bootcamp.Base.Int.{pos, ◌≤ℤ◌}
use goshield_bootcamp.Base.{arith, ℕ, ◌≡◌, false}

module _ {ℓ} {F : Type ℓ} (float : Float64 F) where
  open float use {of_int, mul, lt, le, of_uint, to_int}

  -- float64 to int64 rounds towards zero and below no bound that the number keeps, nor does a
  -- factor below 1 lift a number above a bound that is not negative.
  pub record IsTruncating (drawn : F) : Type ℓ where
    pub lt_irrefl : (x : F) → lt x x ≡ false
    pub to_int_bound : (m : ℕ) (x : F) → lt (of_int (pos m)) x ≡ false → to_int x ≤ℤ pos m
    pub mul_bound :
        (m : ℕ) (x : F) → lt (of_int (pos m)) x ≡ false → lt (of_int (pos m)) (mul drawn x) ≡ false

  capped :
      (drawn : F)
      → IsTruncating drawn
      → (b : ExponentialBackoff F) (m retry : ℕ) → b.max_interval ≡ pos m
      → lt (of_int (pos m)) (capped_interval float b retry) ≡ false
  unfolding capped_interval
  capped drawn t b m retry em = ground (arith, t.lt_irrefl (of_int (pos m)), em)

  -- With a maximum interval that is not negative, and a float64 that truncates and multiplies by
  -- the drawn number as the laws say, no exponential delay exceeds the maximum, with jitter or
  -- without; and from max_retry_count retries on both strategies return -1.
  pub exponential_bounds :
      (drawn : F)
      → IsTruncating drawn
      → (b : ExponentialBackoff F) (m retry : ℕ) → b.max_interval ≡ pos m
      → (exponential_next float b retry ≤ℤ pos m)
        × (exponential_random_next float drawn b retry ≤ℤ pos m)
        × (b.max_retry_count ≤ℤ pos retry
            → (exponential_next float b retry ≡ exhausted)
              × (exponential_random_next float drawn b retry ≡ exhausted))
  unfolding exponential_next exponential_random_next
  exponential_bounds drawn t b m retry em =
      let c = capped drawn t b m retry em in
      let x = capped_interval float b retry in
      (
        ground (arith, t.to_int_bound m x c),
        ground (arith, t.to_int_bound m (mul drawn x) (t.mul_bound m x c)),
        λ h. (ground arith, ground arith),
      )
