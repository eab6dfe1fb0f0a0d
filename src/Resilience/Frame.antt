-- ===== src/Resilience/Frame.antt =====
-- What an executor leaves alone (pkg/resilience/executor.go): a property of the state that its
-- parts keep, whatever patterns are combined, panics included; and from it the balance of the
-- bulkhead.
use mathlib.Core.Path.{subst}
use goshield_bootcamp.Backoff.Retry.{
  RetryConfig, consider, call_on_retry, resume, execute_from, Verdict, gives_up, again, ends,
  respond as retry_respond,
}
use goshield_bootcamp.RateLimit.SlidingWindow.{wait}
use goshield_bootcamp.Base.Go.{Outcome, Exit, panicked, Proc, GoError, returned, Duration}
use goshield_bootcamp.Base.Int.{ltb_ℤ, pos, leb_ℤ}
use goshield_bootcamp.Resilience.Executor.{retried, Runtime, limited}
use goshield_bootcamp.Base.{
  ℕ, zero, suc, ◌≡◌, inl, inr, Option, none, some, Option-cases, Bool-cases,
}
use goshield_bootcamp.Fallback.{
  spawn_on_fallback, Config as FallbackConfig, execute as fallback_execute,
  respond as fallback_respond, recover,
}
use goshield_bootcamp.Timeout.{
  spawn_on_timeout, Config as TimeoutConfig, execute as timeout_execute, conclude, Race, Raced,
  finished, expired, cancelled,
}
use goshield_bootcamp.Bulkhead.Execute.{end_of}

module _ {ℓ ν} {S : Type ℓ} (P : S → Type ν) where
  abbrev pub KeptBy : (S → S) → Type (ℓ ⊔ ν)
  KeptBy f = (s : S) → P s → P (f s)

  -- A run keeps the property, however it ends.
  abbrev pub Keeps {μ} : {A : Type μ} → Proc S A → Type (ℓ ⊔ ν)
  Keeps fn = (s : S) → P s → P (end_of (fn s))

  abbrev MaybeKeeps {μ} : {A : Type μ} → Option (Exit S A) → Type ν
  MaybeKeeps none = Unit {ν}
  MaybeKeeps (some x) = P (end_of x)

  consider-Keeps :
      (c : RetryConfig S) (sleep : Duration → S → Option GoError × S) (i : ℕ) (err : GoError)
      → KeptBy (call_on_retry c.on_retry i err)
      → ((d : Duration) → KeptBy (λ s. (sleep d s).1))
      → (s : S) → P s
      → P (consider c sleep i err s).1
  unfolding consider
  consider-Keeps c sleep i err on nap s p = elim (Bool-cases (gives_up c.retry_on err)) [
    | inl over ↦ rw (over, consider) p
    | inr go ↦ elim (Bool-cases (ltb_ℤ (c.backoff.next i) (pos 0))) [
      | inl spent ↦ rw (go, spent, consider) p
      | inr left ↦ rw (go, left, consider) (nap (c.backoff.next i) _ (on s p))
    ]
  ]

  module _ {μ} {A : Type μ} where
    respond-Keeps :
        (c : FallbackConfig S A)
        → ((e : GoError) → KeptBy (spawn_on_fallback c e))
        → ((f : GoError → Proc S (Outcome A)) → c.fallback ≡ some f → (e : GoError) → Keeps (f e))
        → (x : Exit S (Outcome A)) → P (end_of x)
        → P (end_of (fallback_respond c x))
    unfolding fallback_respond recover
    respond-Keeps c on back (panicked s) p = p
    respond-Keeps c on back (returned (v, none) s) p = p
    respond-Keeps c on back (returned (v, some e) s) p = elim (Option-cases c.fallback) [
      | inl off ↦ rw (off, recover) p
      | inr (f, is_f) ↦ rw (is_f, recover) (back f is_f e (spawn_on_fallback c e s) (on e s p))
    ]

    pub fallback-Keeps :
        (c : FallbackConfig S A)
        → ((e : GoError) → KeptBy (spawn_on_fallback c e))
        → ((f : GoError → Proc S (Outcome A)) → c.fallback ≡ some f → (e : GoError) → Keeps (f e))
        → (fn : Proc S (Outcome A)) → Keeps fn
        → Keeps (fallback_execute c fn)
    unfolding fallback_execute
    fallback-Keeps c on back fn k s p = respond-Keeps c on back (fn s) (k s p)

    pub limited-Keeps :
        (wait : S → Option GoError × S)
        → KeptBy (λ s. (wait s).1)
        → (fn : Proc S (Outcome A)) → Keeps fn
        → Keeps (limited wait fn)
    unfolding limited
    limited-Keeps wait w fn k s p = elim (Option-cases (wait s).0) [
      | inl go ↦ rw (go, limited) (k (wait s).1 (w s p))
      | inr (e, stopped) ↦ rw (stopped, limited) (w s p)
    ]

    conclude-Keeps :
        (c : TimeoutConfig S)
        → KeptBy (spawn_on_timeout c)
        → (x : Exit S (Raced A)) → P (end_of x)
        → P (end_of (conclude c x))
    unfolding conclude
    conclude-Keeps c on (returned (finished r) s) p = p
    conclude-Keeps c on (returned expired s) p = on s p
    conclude-Keeps c on (returned (cancelled e) s) p = on s p
    conclude-Keeps c on (panicked s) p = p

    pub timeout-Keeps :
        (race : Race S A) (c : TimeoutConfig S)
        → KeptBy (spawn_on_timeout c)
        → ((d : Duration) (fn : Proc S (Outcome A)) → Keeps fn → Keeps (race d fn))
        → (fn : Proc S (Outcome A)) → Keeps fn
        → Keeps (timeout_execute race c fn)
    unfolding timeout_execute
    timeout-Keeps race c on r fn k s p = elim (Bool-cases (leb_ℤ c.duration (pos 0))) [
      | inl off ↦ rw (off, timeout_execute) (k s p)
      | inr on_time ↦
          rw (on_time, timeout_execute)
            (conclude-Keeps c on (race c.duration fn s) (r c.duration fn k s p))
    ]

    -- The retry loop.
    resume-Keeps :
        (v : Verdict × S) (loop : S → Option (Exit S (Outcome A)))
        → P v.1
        → ((s : S) → P s → MaybeKeeps (loop s))
        → MaybeKeeps (resume v loop)
    unfolding resume
    resume-Keeps (ends e, s) loop p k = p
    resume-Keeps (again, s) loop p k = k s p

    retry_respond-Keeps :
        (c : RetryConfig S) (sleep : Duration → S → Option GoError × S)
        → ((i : ℕ) (err : GoError) → KeptBy (call_on_retry c.on_retry i err))
        → ((d : Duration) → KeptBy (λ s. (sleep d s).1))
        → (i : ℕ) (x : Exit S (Outcome A)) (loop : S → Option (Exit S (Outcome A))) → P (end_of x)
        → ((s : S) → P s → MaybeKeeps (loop s))
        → MaybeKeeps (retry_respond c sleep i x loop)
    unfolding retry_respond
    retry_respond-Keeps c sleep on nap i (panicked s) loop p k = p
    retry_respond-Keeps c sleep on nap i (returned (v, none) s) loop p k = p
    retry_respond-Keeps c sleep on nap i (returned (v, some err) s) loop p k =
        resume-Keeps (consider c sleep i err s) loop
          (consider-Keeps c sleep i err (on i err) nap s p) k

    execute_from-Keeps :
        (c : RetryConfig S) (sleep : Duration → S → Option GoError × S)
        → ((i : ℕ) (err : GoError) → KeptBy (call_on_retry c.on_retry i err))
        → ((d : Duration) → KeptBy (λ s. (sleep d s).1))
        → (fuel i : ℕ) (fn : Proc S (Outcome A)) → Keeps fn
        → (s : S) → P s
        → MaybeKeeps (execute_from c sleep fuel i fn s)
    unfolding execute_from
    execute_from-Keeps c sleep on nap zero i fn k s p = tt
    execute_from-Keeps c sleep on nap (suc fuel) i fn k s p =
        retry_respond-Keeps c sleep on nap i (fn s) (execute_from c sleep fuel (suc i) fn) (k s p)
          (execute_from-Keeps c sleep on nap fuel (suc i) fn k)

    pub retried-Keeps :
        (rt : Runtime S A) (c : RetryConfig S)
        → ((i : ℕ) (err : GoError) → KeptBy (call_on_retry c.on_retry i err))
        → ((d : Duration) → KeptBy (λ s. (rt.sleep d s).1))
        → (fn : Proc S (Outcome A)) → Keeps fn
        → Keeps (retried rt c fn)
    unfolding retried
    retried-Keeps rt c on nap fn k s p =
        elim (Option-cases (execute_from c rt.sleep rt.attempts 0 fn s)) [
          | inl spent ↦ rw (spent, retried) p
          | inr (x, e) ↦
              rw (e, retried)
                (subst MaybeKeeps e (execute_from-Keeps c rt.sleep on nap rt.attempts 0 fn k s p))
        ]
