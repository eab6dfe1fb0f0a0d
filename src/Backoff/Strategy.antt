-- ===== src/Backoff/Strategy.antt =====
-- The backoff strategies (internal/backoff/backoff.go). float64 is the parameter `float`, and what
-- rand.Float64 draws is an argument.
use goshield_bootcamp.Base.Go.{Duration}
use goshield_bootcamp.Base.Float.{Float64}
use goshield_bootcamp.Base.Int.{leb_ℤ, pos, ◌*ℤ◌, ltb_ℤ, ◌+ℤ◌, negsuc, wrap64, ℤ}
use goshield_bootcamp.Base.{ℕ, zero, suc, if◌then◌else◌}

pub record Strategy : Type 0 where
  pub next : ℕ → Duration
  pub max_retries : ℤ

pub record FixedBackoff : Type 0 where
  pub interval : Duration
  pub max_retry_count : ℤ

-- `return -1`
abbrev pub exhausted : Duration
exhausted = negsuc 0

unfoldable pub fixed_next : FixedBackoff → ℕ → Duration
fixed_next b retry = if leb_ℤ b.max_retry_count (pos retry) then exhausted else b.interval

abbrev pub fixed_strategy : FixedBackoff → Strategy
unfolding fixed_next
fixed_strategy b = record { next = fixed_next b; max_retries = b.max_retry_count }

pub record FibonacciBackoff : Type 0 where
  pub initial_interval : Duration
  pub max_interval : Duration
  pub max_retry_count : ℤ

-- The loop of `fibonacci`, by the rounds left.
unfoldable pub fib_loop : ℕ → ℤ → ℤ → ℤ
fib_loop zero a b = b
fib_loop (suc k) a b = fib_loop k b (wrap64 (a +ℤ b))

unfoldable pub fibonacci : ℕ → ℤ
unfolding fib_loop
fibonacci zero = pos 1
fibonacci (suc k) = fib_loop k (pos 0) (pos 1)

unfoldable pub fibonacci_next : FibonacciBackoff → ℕ → Duration
fibonacci_next b retry =
    if leb_ℤ b.max_retry_count (pos retry)
    then exhausted
    else let interval = wrap64 (b.initial_interval *ℤ fibonacci (suc (suc retry))) in
      if ltb_ℤ b.max_interval interval then b.max_interval else interval

abbrev pub fibonacci_strategy : FibonacciBackoff → Strategy
unfolding fibonacci_next
fibonacci_strategy b = record { next = fibonacci_next b; max_retries = b.max_retry_count }

-- ExponentialBackoff and ExponentialRandomBackoff have the same fields.
pub record ExponentialBackoff {ℓ} (F : Type ℓ) : Type ℓ where
  pub initial_interval : Duration
  pub max_interval : Duration
  pub max_retry_count : ℤ
  pub multiplier : F

module _ {ℓ} {F : Type ℓ} (float : Float64 F) where
  open float use {of_uint, of_int, mul, pow, lt, le, to_int}

  unfoldable pub get_multiplier : ExponentialBackoff F → F
  get_multiplier b = if le b.multiplier (of_uint 0) then of_uint 2 else b.multiplier

  -- The interval before it is drawn from, at most the maximum.
  unfoldable pub capped_interval : ExponentialBackoff F → ℕ → F
  unfolding get_multiplier
  capped_interval b retry =
      let interval = mul (of_int b.initial_interval) (pow (get_multiplier b) (of_uint retry)) in
      if lt (of_int b.max_interval) interval then of_int b.max_interval else interval

  unfoldable pub exponential_next : ExponentialBackoff F → ℕ → Duration
  exponential_next b retry =
      if leb_ℤ b.max_retry_count (pos retry) then exhausted else to_int (capped_interval b retry)

  unfoldable pub exponential_random_next : F → ExponentialBackoff F → ℕ → Duration
  exponential_random_next drawn b retry =
      if leb_ℤ b.max_retry_count (pos retry)
      then exhausted
      else to_int (mul drawn (capped_interval b retry))
