-- ===== src/Examples/RateLimit.antt =====
-- The limiters at concrete inputs.
use goshield_bootcamp.RateLimit.SlidingWindow.Refine.{allow_all, admit_all, allow_all-admit_all}
use goshield_bootcamp.Examples.Fixed.{fixed, fixed-IsCapped}
use goshield_bootcamp.RateLimit.SlidingWindow.Bound.{stamps, count_within, count_within-le}
use goshield_bootcamp.RateLimit.Reservation.{Round}
use goshield_bootcamp.Base.Go.{Time}
use goshield_bootcamp.Base.Int.{pos}
use goshield_bootcamp.Base.{ℕ, ◌≤◌, ◌≡◌, refl, true, false, none, List, [], ◌∷◌, arith, ltb}
use goshield_bootcamp.RateLimit.SlidingWindow.{new_sliding_window, SlidingWindow, allow}
use goshield_bootcamp.RateLimit.TokenBucket.{
  reserve_n-allow_n, refresh_tokens, tokens_capped, allow_n, wait_n, reserve_n, TokenBucket,
}

-- At most two calls in ten nanoseconds.
abbrev window : SlidingWindow
window = record { limit = pos 2; window = pos 10; requests = [] }

abbrev calls : List (Time × Time)
calls = (1, 1) ∷ (2, 3) ∷ (4, 4) ∷ (12, 13) ∷ []

calls_stamps : stamps calls window ≡ 1 ∷ 3 ∷ 13 ∷ []
unfolding stamps allow
calls_stamps = refl

count_within-le_example : count_within 3 10 (stamps calls window) ≤ 2
unfolding new_sliding_window
count_within-le_example = count_within-le 3 10 2 window calls refl (ground arith)

abbrev busy : SlidingWindow
busy = record window { requests = 1 ∷ 3 ∷ [] }

abbrev closed : SlidingWindow
closed = record window { limit = pos 0 }

-- Three tokens, at most five, and one more each nanosecond of the fixed-point clock.
abbrev bucket : TokenBucket ℕ
bucket = record { rate = 1000; burst = pos 5; tokens = 3000; last_time = 0 }

abbrev rounds : List Round
rounds = record { now = 1; later = 1; done = none } ∷ []

tokens_capped_example :
    (ltb 5000 (allow_n fixed 9 (pos 2) bucket).1.tokens ≡ false)
    × (ltb 5000 (reserve_n fixed 9 9 (pos 2) bucket).1.tokens ≡ false)
    × (ltb 5000 (wait_n fixed rounds (pos 2) bucket).1.tokens ≡ false)
unfolding allow_n reserve_n wait_n
tokens_capped_example = tokens_capped fixed fixed-IsCapped 9 9 rounds 2 bucket refl

reserve_n-allow_n_example :
    ((reserve_n fixed 1 1 (pos 4) bucket).0.ok ≡ true)
    × ((reserve_n fixed 1 1 (pos 4) bucket).1 ≡ (allow_n fixed 1 (pos 4) bucket).1)
    × ((allow_n fixed 1 (pos 4) bucket).0 ≡ false
        → (reserve_n fixed 1 1 (pos 4) bucket).1 ≡ refresh_tokens fixed 1 bucket)
reserve_n-allow_n_example = reserve_n-allow_n fixed 1 1 (pos 4) bucket

allow_all-admit_all_example : allow_all calls window ≡ admit_all 2 10 calls []
unfolding new_sliding_window
allow_all-admit_all_example = allow_all-admit_all 2 10 window calls refl (ground arith)

calls_allow_all : allow_all calls window ≡ true ∷ true ∷ false ∷ true ∷ []
unfolding allow_all allow
calls_allow_all = refl
