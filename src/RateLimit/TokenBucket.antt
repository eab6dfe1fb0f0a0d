-- ===== src/RateLimit/TokenBucket.antt =====
-- The token bucket limiter (internal/ratelimit/ratelimit.go). Each method takes the readings of the
-- clock that it makes under its mutex, in order; float64 is the parameter `float`.
use goshield_bootcamp.RateLimit.Reservation.{waiting, Reservation, failed, acquired, Waited, Round}
use goshield_bootcamp.Base.Go.{Time, since, second, Duration}
use goshield_bootcamp.Base.Float.{Float64}
use goshield_bootcamp.Base.Int.{ℤ, ◌+ℤ◌, pos}
use goshield_bootcamp.Base.{
  ℕ, ◌≡◌, Bool, true, false, none, some, List, [], ◌∷◌, arith, if◌then◌else◌,
}

pub record TokenBucket {ℓ} (F : Type ℓ) : Type ℓ where
  pub rate : F
  pub burst : ℤ
  pub tokens : F
  pub last_time : Time

module _ {ℓ} {F : Type ℓ} (float : Float64 F) where
  open float use {of_uint, of_int, add, sub, mul, div, lt, le, to_int, seconds}

  unfoldable pub new_token_bucket : Time → F → ℤ → TokenBucket F
  new_token_bucket now rate burst = record {
    rate = rate;
    burst = burst;
    tokens = of_int burst;
    last_time = now;
  }

  -- `if tb.tokens > float64(tb.burst) { tb.tokens = float64(tb.burst) }`
  abbrev pub cap_at : ℤ → F → F
  cap_at burst tokens = if lt (of_int burst) tokens then of_int burst else tokens

  unfoldable pub refresh_tokens : Time → TokenBucket F → TokenBucket F
  refresh_tokens now tb =
      let elapsed = seconds (since now tb.last_time) in
      record tb { last_time = now; tokens = cap_at tb.burst (add tb.tokens (mul elapsed tb.rate)) }

  abbrev pub spend : ℤ → TokenBucket F → TokenBucket F
  spend n tb = record tb { tokens = sub tb.tokens (of_int n) }

  unfoldable pub allow_n : Time → ℤ → TokenBucket F → Bool × TokenBucket F
  unfolding refresh_tokens
  allow_n now n tb =
      let tb' = refresh_tokens now tb in
      if le (of_int n) tb'.tokens then (true, spend n tb') else (false, tb')

  unfoldable pub allow : Time → TokenBucket F → Bool × TokenBucket F
  unfolding allow_n
  allow now tb = allow_n now (pos 1) tb

  -- `time.Duration(deficit / tb.rate * float64(time.Second))`
  abbrev pub wait_time : ℤ → TokenBucket F → Duration
  wait_time n tb = to_int (mul (div (sub (of_int n) tb.tokens) tb.rate) (of_uint second))

  unfoldable pub reserve_n : Time → Time → ℤ → TokenBucket F → Reservation × TokenBucket F
  unfolding refresh_tokens
  reserve_n now later n tb =
      let tb' = refresh_tokens now tb in
      if le (of_int n) tb'.tokens
      then (record { ok = true; delay = pos 0; time_to_act = pos later }, spend n tb')
      else let delay = wait_time n tb' in
        (record { ok = true; delay = delay; time_to_act = pos later +ℤ delay }, tb')

  -- The loop of WaitN, over the rounds that its environment gives it.
  unfoldable pub wait_n : List Round → ℤ → TokenBucket F → Waited × TokenBucket F
  unfolding refresh_tokens
  wait_n [] n tb = (waiting, tb)
  wait_n (r ∷ rs) n tb =
      let tb' = refresh_tokens r.now tb in
      let again = wait_n rs n tb' in
      if le (of_int n) tb'.tokens
      then (acquired, spend n tb')
      else elim r.done [ some e ↦ (failed e, tb') | none ↦ again ]

  -- float64: nothing is below itself, and taking off a number that is not negative does not lift
  -- one above a bound.
  pub record IsCapped : Type ℓ where
    pub lt_irrefl : (x : F) → lt x x ≡ false
    pub sub_bound : (b x : F) (n : ℕ) → lt b x ≡ false → lt b (sub x (of_int (pos n))) ≡ false

  -- The tokens are not above the burst.
  abbrev pub IsFull : TokenBucket F → Type 0
  IsFull tb = lt (of_int tb.burst) tb.tokens ≡ false

  refresh_tokens-IsFull :
      IsCapped → (now : Time) (tb : TokenBucket F) → IsFull (refresh_tokens now tb)
  unfolding refresh_tokens
  refresh_tokens-IsFull c now tb = ground (arith, c.lt_irrefl (of_int tb.burst))

  wait_n-IsFull :
      IsCapped
      → (rs : List Round) (n : ℕ) (tb : TokenBucket F) → IsFull tb
      → IsFull (wait_n rs (pos n) tb).1
  unfolding wait_n
  wait_n-IsFull c [] n tb h = h
  wait_n-IsFull c (r ∷ rs) n tb h =
      let tb' = refresh_tokens r.now tb in
      let full = refresh_tokens-IsFull c r.now tb in
      ground
        (arith, c.sub_bound (of_int tb'.burst) tb'.tokens n full, wait_n-IsFull c rs n tb' full)

  -- With a float64 that subtracts as the laws say, and for a number of tokens that is not negative,
  -- AllowN, ReserveN and WaitN leave the tokens not above the burst, from any state in which they
  -- are not.
  pub tokens_capped :
      IsCapped
      → (now later : Time) (rs : List Round) (n : ℕ) (tb : TokenBucket F) → IsFull tb
      → IsFull (allow_n now (pos n) tb).1
        × IsFull (reserve_n now later (pos n) tb).1
        × IsFull (wait_n rs (pos n) tb).1
  unfolding allow_n reserve_n
  tokens_capped c now later rs n tb h =
      let tb' = refresh_tokens now tb in
      let full = refresh_tokens-IsFull c now tb in
      let spent = c.sub_bound (of_int tb'.burst) tb'.tokens n full in
      (ground (arith, full, spent), ground (arith, full, spent), wait_n-IsFull c rs n tb h)

  -- ReserveN always reports OK, and changes the bucket as AllowN does at the same reading of the
  -- clock: where the tokens do not suffice it takes none, and the reservation is not recorded.
  pub reserve_n-allow_n :
      (now later : Time) (n : ℤ) (tb : TokenBucket F)
      → ((reserve_n now later n tb).0.ok ≡ true)
        × ((reserve_n now later n tb).1 ≡ (allow_n now n tb).1)
        × ((allow_n now n tb).0 ≡ false → (reserve_n now later n tb).1 ≡ refresh_tokens now tb)
  unfolding reserve_n allow_n
  reserve_n-allow_n now later n tb = (ground arith, ground arith, ground arith)
