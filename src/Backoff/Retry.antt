-- ===== src/Backoff/Retry.antt =====
-- The retry loop and the tracker (internal/backoff/backoff.go), over any state of the program. The
-- runtime's choice between the end of the context and the timer is the parameter `sleep`.
use goshield_bootcamp.Backoff.Strategy.{Strategy}
use goshield_bootcamp.Base.Go.{
  returned, GoError, Exit, panicked, join, inc64, Outcome, Duration, u64_mod, Proc,
  max_retries_exceeded,
}
use goshield_bootcamp.Base.Int.{ltb_ℤ, ℤ, neg_part, pos_part, pos}
use goshield_bootcamp.Base.{
  ℕ, zero, suc, ◌+◌, ◌-◌, ◌%◌, Bool, true, false, not, ◌&&◌, ◌||◌, Option, none, some, ltb,
  if◌then◌else◌,
}

-- `errors.Is(err, target)` for the target ErrMaxRetriesExceeded, through `errors.Join`.
abbrev pub is_max_retries_exceeded : GoError → Bool
is_max_retries_exceeded max_retries_exceeded = true
is_max_retries_exceeded (join e f) = is_max_retries_exceeded e || is_max_retries_exceeded f
is_max_retries_exceeded _ = false

pub record RetryConfig {ℓ} (S : Type ℓ) : Type ℓ where
  pub backoff : Strategy
  pub retry_on : Option (GoError → Bool)
  pub on_retry : Option (ℕ → GoError → S → S)

-- `config.RetryOn != nil && !config.RetryOn(err)`
abbrev pub gives_up : Option (GoError → Bool) → GoError → Bool
gives_up none err = false
gives_up (some retry_on) err = not (retry_on err)

abbrev pub call_on_retry {ℓ} : {S : Type ℓ} → Option (ℕ → GoError → S → S) → ℕ → GoError → S → S
call_on_retry none i err s = s
call_on_retry (some f) i err s = f i err s

-- After a failed attempt: the error that ends the loop, or a further round.
pub data Verdict : Type 0 where
  ends : GoError → Verdict
  again : Verdict

module _ {ℓ} {S : Type ℓ} (config : RetryConfig S) (sleep : Duration → S → Option GoError × S) where
  unfoldable pub consider : ℕ → GoError → S → Verdict × S
  consider i err s =
      let delay = config.backoff.next i in
      let (stopped, s') = sleep delay (call_on_retry config.on_retry i err s) in
      if gives_up config.retry_on err
      then (ends err, s)
      else if ltb_ℤ delay (pos 0)
      then (ends (join max_retries_exceeded err), s)
      else (elim stopped [ some e ↦ ends e | none ↦ again ], s')

module _ {ℓ μ} {S : Type ℓ} {A : Type μ} where
  unfoldable pub resume :
      Verdict × S → (S → Option (Exit S (Outcome A))) → Option (Exit S (Outcome A))
  resume (ends e, s) loop = some (returned (none, some e) s)
  resume (again, s) loop = loop s

module _ {ℓ μ} {S : Type ℓ} {A : Type μ} (config : RetryConfig S)
    (sleep : Duration → S → Option GoError × S) where
  -- The body of the loop after the call of the function.
  unfoldable pub respond :
      ℕ → Exit S (Outcome A) → (S → Option (Exit S (Outcome A))) → Option (Exit S (Outcome A))
  unfolding consider resume
  respond i (panicked s) loop = some (panicked s)
  respond i (returned (value, none) s) loop = some (returned (value, none) s)
  respond i (returned (value, some err) s) loop = resume (consider config sleep i err s) loop

  -- The loop from round `i`, with fuel for that many attempts; `none` means that it ran out.
  unfoldable pub execute_from : ℕ → ℕ → Proc S (Outcome A) → S → Option (Exit S (Outcome A))
  unfolding respond
  execute_from zero i fn s = none
  execute_from (suc fuel) i fn s = respond i (fn s) (execute_from fuel (suc i) fn)

pub record RetryTracker : Type 0 where
  pub total_attempts : ℕ
  pub total_success : ℕ
  pub total_retries : ℕ

-- `uint64(rt.config.Backoff.MaxRetries() + 1)`
abbrev pub attempts_of : ℤ → ℕ
attempts_of max_retries =
    (pos_part max_retries + 1 + u64_mod - neg_part max_retries % u64_mod) % u64_mod

-- What RetryTracker.Execute adds after the run; `attempts` is 1 if there is no strategy.
unfoldable pub track : Option ℤ → Option GoError → RetryTracker → RetryTracker
track max_retries err rt =
    let attempts : ℕ = elim max_retries [ none ↦ 1 | some n ↦ attempts_of n ] in
    let counted = record rt { total_attempts = (rt.total_attempts + attempts) % u64_mod } in
    elim err [
      | none ↦ record counted { total_success = inc64 rt.total_success }
      | some e ↦
          if is_max_retries_exceeded e && ltb 1 attempts
          then record counted { total_retries = (rt.total_retries + (attempts - 1)) % u64_mod }
          else counted
    ]

unfoldable pub get_metrics : RetryTracker → ℕ × ℕ × ℕ × ℕ
get_metrics rt = (rt.total_attempts, rt.total_success, rt.total_retries, 0)
