-- ===== src/Backoff/Attempts.antt =====
-- How often the retry loop calls the function, and how it ends (internal/backoff/backoff.go).
use native.Mathlib.Decide.{dec_lt}
use goshield_bootcamp.Backoff.Strategy.{
  Strategy, fibonacci_strategy, fixed_next, fixed_strategy, fibonacci_next, FibonacciBackoff,
  FixedBackoff,
}
use goshield_bootcamp.Backoff.Retry.{
  Verdict, respond, again, resume, RetryTracker, gives_up, track, ends, execute_from, RetryConfig,
  consider,
}
use goshield_bootcamp.Base.Go.{
  panicked, join, returned, max_retries_exceeded, GoError, Exit, Outcome, Duration, Proc,
}
use goshield_bootcamp.Base.Int.{ltb_ℤ, pos}
use goshield_bootcamp.Base.{
  ap, ◌∙◌, zero, suc, ◌^◌, refl, inl, inr, false, none, Bool-cases, ℕ, ◌+◌, ◌≤◌, ◌<◌, ◌≡◌, true,
  Option, some, arith,
}

-- From `max` retries on, the strategy returns a negative delay.
abbrev pub IsFinite : ℕ → Strategy → Type 0
IsFinite max s = (retry : ℕ) → max ≤ retry → ltb_ℤ (s.next retry) (pos 0) ≡ true

pub fixed-IsFinite :
    (b : FixedBackoff) (max : ℕ) → b.max_retry_count ≡ pos max → IsFinite max (fixed_strategy b)
unfolding fixed_next
fixed-IsFinite b max e retry h = ground arith

pub fibonacci-IsFinite :
    (b : FibonacciBackoff) (max : ℕ)
    → b.max_retry_count ≡ pos max
    → IsFinite max (fibonacci_strategy b)
unfolding fibonacci_next
fibonacci-IsFinite b max e retry h = ground arith

module _ {ℓ} {S : Type ℓ} (config : RetryConfig S) (sleep : Duration → S → Option GoError × S) where
  consider_ends :
      (i : ℕ) (err : GoError) (s : S)
      → ltb_ℤ (config.backoff.next i) (pos 0) ≡ true
      → (e : GoError) × ((consider config sleep i err s).0 ≡ ends e)
  unfolding consider
  consider_ends i err s h = elim (Bool-cases (gives_up config.retry_on err)) [
    | inl g ↦ (err, ground arith)
    | inr g ↦ (join max_retries_exceeded err, ground arith)
  ]

abbrev IsSome {ℓ} : {A : Type ℓ} → Option A → Type ℓ
IsSome {A} o = (a : A) × (o ≡ some a)

module _ {ℓ μ} {S : Type ℓ} {A : Type μ} where
  resume_ends :
      (p : Verdict × S) (loop : S → Option (Exit S (Outcome A))) (e : GoError)
      → p.0 ≡ ends e
      → IsSome (resume p loop)
  unfolding resume
  resume_ends (ends e', s) loop e h = (_, refl)
  resume_ends (again, s) loop e h = cc

  resume_total :
      (p : Verdict × S) (loop : S → Option (Exit S (Outcome A)))
      → ((s : S) → IsSome (loop s))
      → IsSome (resume p loop)
  unfolding resume
  resume_total (ends e, s) loop h = (_, refl)
  resume_total (again, s) loop h = h s

module _ {ℓ μ} {S : Type ℓ} {A : Type μ} (config : RetryConfig S)
    (sleep : Duration → S → Option GoError × S) where
  respond_total :
      (i : ℕ) (x : Exit S (Outcome A)) (loop : S → Option (Exit S (Outcome A)))
      → ((err : GoError) (s : S) → IsSome (resume (consider config sleep i err s) loop))
      → IsSome (respond config sleep i x loop)
  unfolding respond
  respond_total i (panicked s) loop h = (_, refl)
  respond_total i (returned (value, none) s) loop h = (_, refl)
  respond_total i (returned (value, some err) s) loop h = h err s

  -- From a round that the strategy may still reach, with a strategy that gives up after `max`
  -- retries, the loop ends after at most max + 1 - i calls of the function: with fuel for that many
  -- it returns or panics, whatever the function, the callbacks and the sleeps do.
  pub execute_from_total :
      (max fuel i : ℕ)
      → IsFinite max config.backoff
      → i ≤ max
      → max < fuel + i
      → (fn : Proc S (Outcome A)) (s : S)
      → (x : Exit S (Outcome A)) × (execute_from config sleep fuel i fn s ≡ some x)
  unfolding execute_from
  execute_from_total max zero i fin low h fn s = absurd (omega arith)
  execute_from_total max (suc fuel) i fin low h fn s = elim (dec_lt i max) [
    | yes below ↦ respond_total i (fn s) _ (λ err t.
        resume_total (consider config sleep i err t) _
          (execute_from_total max fuel (suc i) fin (omega arith) (omega arith) fn))
    | no last ↦ respond_total i (fn s) _ (λ err t.
        let (e, k) = consider_ends config sleep i err t (fin i (omega arith)) in
        resume_ends (consider config sleep i err t) _ e k)
  ]

-- A function that fails with the error `e` each time, and counts its calls.
abbrev pub always_fails {μ} : {A : Type μ} → GoError → Proc ℕ (Outcome A)
always_fails e calls = returned (none, some e) (calls + 1)

-- The timer always fires.
abbrev pub no_cancel : Duration → ℕ → Option GoError × ℕ
no_cancel d s = (none, s)

abbrev pub plain : Strategy → RetryConfig ℕ
plain s = record { backoff = s; retry_on = none; on_retry = none }

-- A function that always fails, retried on every error and never cancelled: with a strategy whose
-- delays are not negative for the first `max` retries and negative then, from round i = max - k, it
-- is called k + 1 times more, and the result joins ErrMaxRetriesExceeded and the last error.
pub always_fails_attempts {μ} :
    {A : Type μ} (s : Strategy) (e : GoError) (max k i calls : ℕ)
    → IsFinite max s
    → ((retry : ℕ) → retry < max → ltb_ℤ (s.next retry) (pos 0) ≡ false)
    → i + k ≡ max
    → execute_from {A = A} (plain s) no_cancel (suc k) i (always_fails e) calls
      ≡ some (returned (none, some (join max_retries_exceeded e)) (calls + suc k))
unfolding execute_from
always_fails_attempts s e max zero i calls fin more h = rw (fin i (omega arith)) refl
always_fails_attempts s e max (suc k) i calls fin more h = rw (more i (omega arith)) (
    always_fails_attempts s e max k (suc i) (calls + 1) fin more (omega arith)
    ∙ ap (λ n. some (returned (none, some (join max_retries_exceeded e)) n)) (omega arith))

-- As long as neither max + 1 nor the counter passes 2 ^ 64, the tracker adds max + 1 attempts after
-- every run with a strategy of max retries, whatever came of it, so also after one that succeeded
-- at the first attempt; and a run without an error does not change total_retries.
pub track_overcounts :
    (max : ℕ) (err : Option GoError) (rt : RetryTracker)
    → max + 1 < 2 ^ 64
    → rt.total_attempts + max + 1 < 2 ^ 64
    → ((track (some (pos max)) err rt).total_attempts ≡ rt.total_attempts + max + 1)
      × (err ≡ none → (track (some (pos max)) err rt).total_retries ≡ rt.total_retries)
unfolding track
track_overcounts max err rt h h' = ground arith
