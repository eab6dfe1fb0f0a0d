-- ===== src/Config/Validity.antt =====
-- What the validation accepts (internal/config/config.go).
use Prim.Native.String.{String}
use goshield_bootcamp.Base.Float.{Float64}
use goshield_bootcamp.Base.Int.{pos, ◌≤ℤ◌}
use goshield_bootcamp.Base.{
  refl, ◌++◌, ℕ, ◌≤◌, ◌<◌, ◌≡◌, ◌↔◌, ◌⊎◌, Bool, true, false, not, ◌&&◌, Option, none, some, List,
  [], ◌∷◌, arith, All,
}
use text.Mathlib.TextEquality.{eq_iff}
use text.Mathlib.Text.{◌==◌}
use goshield_bootcamp.Config.Types.{
  RetryConfig, RateLimiterConfig, Config, CircuitBreakerConfig, AdaptiveConfig,
}
use goshield_bootcamp.Config.Validate.{
  explain, section, errors, check_timeout, check_bulkhead, validate, check_retry, check_breaker,
  report, check_adaptive, check_rate_limiter,
}

abbrev pub OnSome {ℓ κ} : {A : Type ℓ} → (A → Type κ) → Option A → Type κ
OnSome P none = Unit
OnSome P (some a) = P a

pub record IsBreaker (c : CircuitBreakerConfig) : Type 0 where
  pub failure_rate : c.failure_rate_threshold ≤ 100
  pub slow_call_rate : c.slow_call_rate_threshold ≤ 100
  pub window : 0 < c.sliding_window_size
  pub seconds : pos 1 ≤ℤ c.timeout_seconds
  pub kind : (c.sliding_window_type ≡ "count") ⊎ (c.sliding_window_type ≡ "time")

module _ {ℓ} {F : Type ℓ} (float : Float64 F) where
  open float use {lt, le, of_uint}

  -- Not below 0, nor above `top`: which a number that is not one meets.
  abbrev pub IsWithin : ℕ → F → Type 0
  IsWithin top x = (lt x (of_uint 0) ≡ false) × (lt (of_uint top) x ≡ false)

  pub record IsAdaptive (a : AdaptiveConfig F) : Type 0 where
    pub failure_alpha : IsWithin 1 a.failure_rate_ema_alpha
    pub latency_alpha : IsWithin 1 a.latency_ema_alpha
    pub low : IsWithin 100 a.min_adaptive_threshold
    pub high : IsWithin 100 a.max_adaptive_threshold
    pub ordered : lt a.max_adaptive_threshold a.min_adaptive_threshold ≡ false
    pub limit : pos 0 ≤ℤ a.consecutive_failure_limit
    pub multiplier : lt a.timeout_multiplier (of_uint 1) ≡ false
    pub longest : pos 1 ≤ℤ a.max_timeout_seconds

  pub record IsRetry (r : RetryConfig F) : Type 0 where
    pub retries : pos 0 ≤ℤ r.max_retries
    pub interval : pos 1 ≤ℤ r.interval_ms
    pub strategy :
        (r.strategy ≡ "fixed")
        ⊎ (r.strategy ≡ "exponential")
        ⊎ (r.strategy ≡ "exponential_random")
        ⊎ (r.strategy ≡ "fibonacci")
    pub multiplier : lt r.multiplier (of_uint 1) ≡ false

  pub record IsRateLimiter (rl : RateLimiterConfig F) : Type 0 where
    pub rate : le rl.rate (of_uint 0) ≡ false
    pub burst : pos 1 ≤ℤ rl.burst
    pub kind : (rl.kind ≡ "token_bucket") ⊎ (rl.kind ≡ "sliding_window")

  pub record IsValid (c : Config F) : Type ℓ where
    pub breaker : OnSome IsBreaker c.circuit_breaker
    pub adaptive : OnSome IsAdaptive c.adaptive
    pub retry : OnSome IsRetry c.retry
    pub rate_limiter : OnSome IsRateLimiter c.rate_limiter
    pub timeout : OnSome (λ t. pos 1 ≤ℤ t.duration_ms) c.timeout
    pub bulkhead : OnSome (λ b. pos 1 ≤ℤ b.max_concurrent) c.bulkhead

-- No check fires.
abbrev Passes : List (Bool × String) → Type 0
Passes = All (λ check. check.0 ≡ false)

report-nil : (checks : List (Bool × String)) → (report checks ≡ []) ↔ Passes checks
unfolding report
report-nil [] = ground arith
report-nil ((true, message) ∷ checks) = ground arith
report-nil ((false, message) ∷ checks) = ground (arith, report-nil checks)

-- Two tests of a word.
not_both : (a b : Bool) → ((not a && not b) ≡ false) ↔ ((a ≡ true) ⊎ (b ≡ true))
not_both true b = ground arith
not_both false b = ground arith

IsBreaker-iff : (c : CircuitBreakerConfig) → Passes (check_breaker c) ↔ IsBreaker c
IsBreaker-iff c = ground (
  arith,
  not_both (c.sliding_window_type == "count") (c.sliding_window_type == "time"),
  eq_iff c.sliding_window_type "count",
  eq_iff c.sliding_window_type "time",
)

module _ {ℓ} {F : Type ℓ} (float : Float64 F) where
  IsAdaptive-iff : (a : AdaptiveConfig F) → Passes (check_adaptive float a) ↔ IsAdaptive float a
  IsAdaptive-iff a = ground arith

  IsRetry-iff : (r : RetryConfig F) → Passes (check_retry float r) ↔ IsRetry float r
  IsRetry-iff r = ground (
    arith,
    eq_iff r.strategy "fixed",
    eq_iff r.strategy "exponential",
    eq_iff r.strategy "exponential_random",
    eq_iff r.strategy "fibonacci",
  )

  IsRateLimiter-iff :
      (rl : RateLimiterConfig F) → Passes (check_rate_limiter float rl) ↔ IsRateLimiter float rl
  IsRateLimiter-iff rl =
      ground (arith, eq_iff rl.kind "token_bucket", eq_iff rl.kind "sliding_window")

append-nil {ℓ} : {A : Type ℓ} (xs ys : List A) → (xs ++ ys ≡ []) ↔ ((xs ≡ []) × (ys ≡ []))
append-nil [] ys = ground arith
append-nil (x ∷ xs) ys = ground arith

section_iff {ℓ κ} :
    {A : Type ℓ} {P : A → Type κ} (check : A → List (Bool × String))
    → ((a : A) → Passes (check a) ↔ P a)
    → (o : Option A) → (report (section check o) ≡ []) ↔ OnSome P o
unfolding report
section_iff check h none = (λ e. tt, λ u. refl)
section_iff check h (some a) =
    let (to, from) = report-nil (check a) in
    let (valid, passes) = h a in (λ e. valid (to e), λ p. from (passes p))

append_iff {ℓ κ μ} :
    {A : Type ℓ} {P : Type κ} {Q : Type μ} (xs ys : List A)
    → (xs ≡ []) ↔ P
    → (ys ≡ []) ↔ Q
    → (xs ++ ys ≡ []) ↔ (P × Q)
append_iff xs ys (p, p') (q, q') =
    let (split, glue) = append-nil xs ys in
    (λ e. (p (split e).0, q (split e).1), λ (x, y). glue (p' x, q' y))

explain-nil : (errs : List String) → (explain errs ≡ none) ↔ (errs ≡ [])
unfolding explain
explain-nil [] = ground arith
explain-nil (e ∷ errs) = ground arith

module _ {ℓ} {F : Type ℓ} (float : Float64 F) where
  errors_iff : (c : Config F) → (errors float c ≡ []) ↔ IsValid float c
  unfolding errors
  errors_iff c =
      let b = section_iff check_breaker IsBreaker-iff c.circuit_breaker in
      let a = section_iff (check_adaptive float) (IsAdaptive-iff float) c.adaptive in
      let r = section_iff (check_retry float) (IsRetry-iff float) c.retry in
      let l = section_iff (check_rate_limiter float) (IsRateLimiter-iff float) c.rate_limiter in
      let t =
        section_iff {P = λ t. pos 1 ≤ℤ t.duration_ms} check_timeout (λ t. ground arith) c.timeout in
      let k =
        section_iff {P = λ b. pos 1 ≤ℤ b.max_concurrent} check_bulkhead (λ b. ground arith)
          c.bulkhead in
      let (to, from) =
        append_iff _ _ (append_iff _ _ (append_iff _ _ (append_iff _ _ (append_iff _ _ b a) r) l) t)
          k in
      (
        λ e.
            let (((((b, a), r), l), t), k) = to e in
            record {
              breaker = b;
              adaptive = a;
              retry = r;
              rate_limiter = l;
              timeout = t;
              bulkhead = k;
            },
        λ v. from (((((v.breaker, v.adaptive), v.retry), v.rate_limiter), v.timeout), v.bulkhead),
      )

  -- A configuration passes the validation exactly if every section that it has is valid: for any
  -- float64, in which a number that is not one lies in every range.
  pub validate-IsValid : (c : Config F) → (validate float c ≡ none) ↔ IsValid float c
  unfolding validate
  validate-IsValid c =
      let (empty, none_of) = explain-nil (errors float c) in
      let (valid, empty_of) = errors_iff c in (λ e. valid (empty e), λ v. none_of (empty_of v))
