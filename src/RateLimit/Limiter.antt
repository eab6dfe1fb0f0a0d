-- ===== src/RateLimit/Limiter.antt =====
-- The interface Limiter and its two implementations (internal/ratelimit/ratelimit.go), each in a
-- cell of the program's state, with the clock that its methods read.
use goshield_bootcamp.RateLimit.Reservation.{Reservation, Waited, Round}
use goshield_bootcamp.Base.Go.{Exit, panicked, Cell, Clock, returned}
use goshield_bootcamp.Base.Float.{Float64}
use goshield_bootcamp.Base.Int.{ℤ, pos}
use goshield_bootcamp.Base.{Bool, none, some, List, if◌then◌else◌}
use goshield_bootcamp.RateLimit.TokenBucket.{TokenBucket, reserve_n, wait_n, allow as token_allow}
use goshield_bootcamp.RateLimit.SlidingWindow.{
  SlidingWindow, allow as window_allow, wait as window_wait, reserve as window_reserve,
  burst as window_burst,
}

pub record Limiter {ℓ κ} (S : Type ℓ) (F : Type κ) : Type (ℓ ⊔ κ) where
  pub allow : S → Bool × S
  pub wait : List Round → S → Waited × S
  pub reserve : S → Exit S Reservation
  pub rate : S → F
  pub burst : S → ℤ

module _ {ℓ κ} {S : Type ℓ} {F : Type κ} (float : Float64 F) (clock : Clock S) where
  open float use {of_int, div, seconds}

  unfoldable pub of_token_bucket : Cell S (TokenBucket F) → Limiter S F
  unfolding token_allow wait_n reserve_n
  of_token_bucket cell = record {
    allow = λ s.
        let (now, s₁) = clock s in
        let (ok, tb) = token_allow float now (cell.get s₁) in (ok, cell.put tb s₁);
    wait = λ rs s. let (w, tb) = wait_n float rs (pos 1) (cell.get s) in (w, cell.put tb s);
    reserve = λ s.
        let (now, s₁) = clock s in
        let (later, s₂) = clock s₁ in
        let (r, tb) = reserve_n float now later (pos 1) (cell.get s₁) in
        returned r (cell.put tb s₂);
    rate = λ s. (cell.get s).rate;
    burst = λ s. (cell.get s).burst;
  }

  -- A call that is refused reads the clock once.
  unfoldable pub of_sliding_window : Cell S SlidingWindow → Limiter S F
  unfolding window_allow window_wait window_reserve window_burst
  of_sliding_window cell = record {
    allow = λ s.
        let (now, s₁) = clock s in
        let (later, s₂) = clock s₁ in
        let (ok, sw) = window_allow now later (cell.get s₁) in
        (ok, cell.put sw (if ok then s₂ else s₁));
    wait = λ rs s. let (w, sw) = window_wait rs (cell.get s) in (w, cell.put sw s);
    reserve = λ s.
        let (now, s₁) = clock s in
        let (later, s₂) = clock s₁ in
        elim (window_reserve now later (cell.get s₁)) [
          | none ↦ panicked s₁
          | some p ↦ returned p.0 (cell.put p.1 s₂)
        ];
    rate = λ s. div (of_int (cell.get s).limit) (seconds (cell.get s).window);
    burst = λ s. window_burst (cell.get s);
  }
