-- ===== src/Resilience/Balance.antt =====
-- An executor keeps what its parts keep, and gives back the slots of its bulkhead
-- (pkg/resilience/executor.go).
use goshield_bootcamp.Backoff.Retry.{call_on_retry, RetryConfig}
use goshield_bootcamp.Resilience.Executor.{apply_if, Runtime, Executor, execute}
use goshield_bootcamp.Bulkhead.Execute.{end_of, take_slot, acquire, guarded}
use goshield_bootcamp.Fallback.{spawn_on_fallback, Config as FallbackConfig}
use goshield_bootcamp.Timeout.{spawn_on_timeout, Config as TimeoutConfig}
use goshield_bootcamp.Bulkhead.Core.{Bulkhead}
use goshield_bootcamp.Base.Go.{
  IsCell, GoError, returned, Duration, panicked, since, Proc, Cell, Time, Clock, Outcome,
}
use goshield_bootcamp.Base.Float.{Float64}
use goshield_bootcamp.Resilience.Frame.{
  retried-Keeps, timeout-Keeps, limited-Keeps, fallback-Keeps, Keeps, KeptBy,
}
use goshield_bootcamp.Breaker.Core.{CircuitBreaker, before_call}
use goshield_bootcamp.Breaker.Calls.{after_call}
use goshield_bootcamp.Base.{◌∙◌, ℕ, ◌≡◌, refl, Option, none, some, arith, inl, inr, Option-cases}
use goshield_bootcamp.Breaker.Execute.{finish, call, execute as breaker_execute}
use goshield_bootcamp.Bulkhead.Execute.{
  Selected, execute as bulkhead_execute, execute-IsBalanced as bulkhead_execute-IsBalanced,
  guarded-end, release, IsBalanced, slots,
}

module _ {ℓ ν} {S : Type ℓ} (P : S → Type ν) where
  module _ {κ μ} {F : Type κ} (float : Float64 F) {A : Type μ} (cell : Cell S CircuitBreaker)
      (clock : Clock S) where
    finish-Keeps :
        KeptBy P (λ s. (clock s).1)
        → ((cb : CircuitBreaker) → KeptBy P (cell.put cb))
        → (began : Time) (r : Outcome A) → Keeps P (finish float cell clock began r)
    unfolding finish
    finish-Keeps tick put began r s p =
        let s₂ = (clock (clock s).1).1 in
        let p₂ = tick (clock s).1 (tick s p) in
        elim (Option-cases
          (after_call float (clock (clock s).1).0 r.1 (since (clock s).0 began) (cell.get s₂))) [
            | inl crash ↦ rw (crash, finish) p₂
            | inr (cb, e) ↦ rw (e, finish) (put cb s₂ p₂)
          ]

    call-Keeps :
        KeptBy P (λ s. (clock s).1)
        → ((cb : CircuitBreaker) → KeptBy P (cell.put cb))
        → (fn : Proc S (Outcome A)) → Keeps P fn
        → Keeps P (call float cell clock fn)
    unfolding call
    call-Keeps tick put fn k s p =
        let began = (clock s).0 in
        elim (fn (clock s).1)
            as (λ x.
              P (end_of x)
              → P (
                  end_of (elim x [
                    | returned r s₂ ↦ finish float cell clock began r s₂
                    | panicked s₂ ↦ panicked s₂
                  ]))) [ returned r s₂ ↦ finish-Keeps tick put began r s₂ | panicked s₂ ↦ λ q. q ]
          (k (clock s).1 (tick s p))

    breaker-Keeps :
        KeptBy P (λ s. (clock s).1)
        → ((cb : CircuitBreaker) → KeptBy P (cell.put cb))
        → (fn : Proc S (Outcome A)) → Keeps P fn
        → Keeps P (breaker_execute float cell clock fn)
    unfolding breaker_execute
    breaker-Keeps tick put fn k s p =
        let now = (clock s).0 in
        let b = before_call now (cell.get (clock s).1) in
        let p₂ = put b.1 (clock s).1 (tick s p) in
        elim (Option-cases b.0) [
          | inl go ↦ rw (go, breaker_execute) (call-Keeps tick put fn k _ p₂)
          | inr (e, refused) ↦ rw (refused, breaker_execute) (put _ _ p₂)
        ]

  module _ (cell : Cell S Bulkhead) (select : S → Selected × S) where
    take_slot-Keeps : ((b : Bulkhead) → KeptBy P (cell.put b)) → KeptBy P (take_slot cell select)
    unfolding take_slot
    take_slot-Keeps put s p = put _ _ (put _ s p)

    release-Keeps : ((b : Bulkhead) → KeptBy P (cell.put b)) → KeptBy P (release cell select)
    unfolding release
    release-Keeps put s p = put _ _ (put _ s p)

    acquire-Keeps :
        KeptBy P (λ s. (select s).1)
        → ((b : Bulkhead) → KeptBy P (cell.put b))
        → KeptBy P (λ s. (acquire cell select s).1)
    unfolding acquire
    acquire-Keeps sel put s p =
        ground
          (arith, p, sel s p, take_slot-Keeps put s p, take_slot-Keeps put (select s).1 (sel s p))

    module _ {μ} {A : Type μ} where
      guarded-Keeps :
          ((b : Bulkhead) → KeptBy P (cell.put b))
          → (fn : Proc S (Outcome A)) → Keeps P fn
          → Keeps P (guarded cell select fn)
      guarded-Keeps put fn k s p = rw (guarded-end cell select fn s) (release-Keeps put _ (k s p))

      bulkhead-Keeps :
          KeptBy P (λ s. (select s).1)
          → ((b : Bulkhead) → KeptBy P (cell.put b))
          → (fn : Proc S (Outcome A)) → Keeps P fn
          → Keeps P (bulkhead_execute cell select fn)
      unfolding bulkhead_execute
      bulkhead-Keeps sel put fn k s p =
          let p₁ = acquire-Keeps sel put s p in
          elim (Option-cases (acquire cell select s).0) [
            | inl ok ↦ rw (ok, bulkhead_execute) (guarded-Keeps put fn k _ (put _ _ p₁))
            | inr (e, refused) ↦ rw (refused, bulkhead_execute) (put _ _ p₁)
          ]

  apply_if-Keeps {κ μ} :
      {X : Type κ} {A : Type μ} (o : Option X) (wrap : X → Proc S A → Proc S A) (exec : Proc S A)
      → Keeps P exec
      → ((x : X) → o ≡ some x → (fn : Proc S A) → Keeps P fn → Keeps P (wrap x fn))
      → Keeps P (apply_if o wrap exec)
  apply_if-Keeps none wrap exec k each = k
  apply_if-Keeps (some x) wrap exec k each = each x refl exec k

  -- What an executor uses of the state keeps the property.
  pub record IsFramed {μ} {A : Type μ} (rt : Runtime S A) (e : Executor S A)
      : Type (ℓ ⊔ ν ⊔ μ) where
    pub tick : KeptBy P (λ s. (rt.clock s).1)
    pub nap : (d : Duration) → KeptBy P (λ s. (rt.sleep d s).1)
    pub sel : KeptBy P (λ s. (rt.select s).1)
    pub race : (d : Duration) (fn : Proc S (Outcome A)) → Keeps P fn → Keeps P (rt.race d fn)
    pub on_breaker :
        (cell : Cell S CircuitBreaker)
        → e.circuit_breaker ≡ some cell
        → (cb : CircuitBreaker) → KeptBy P (cell.put cb)
    pub on_retry :
        (c : RetryConfig S)
        → e.retry_config ≡ some c
        → (i : ℕ) (err : GoError) → KeptBy P (call_on_retry c.on_retry i err)
    pub on_limiter :
        (wait : S → Option GoError × S) → e.rate_limiter ≡ some wait → KeptBy P (λ s. (wait s).1)
    pub on_timeout :
        (c : TimeoutConfig S) → e.timeout_config ≡ some c → KeptBy P (spawn_on_timeout c)
    pub on_bulkhead :
        (cell : Cell S Bulkhead) → e.bulkhead ≡ some cell → (b : Bulkhead) → KeptBy P (cell.put b)
    pub on_fallback :
        (c : FallbackConfig S A)
        → e.fallback_config ≡ some c
        → (err : GoError) → KeptBy P (spawn_on_fallback c err)
    pub fallback :
        (c : FallbackConfig S A)
        → e.fallback_config ≡ some c
        → (f : GoError → Proc S (Outcome A)) → c.fallback ≡ some f
        → (err : GoError) → Keeps P (f err)

  -- Execute keeps what the function and all that the patterns call keep, if the breaker does so.
  pub execute-Keeps_by {κ μ} :
      {F : Type κ} (float : Float64 F) {A : Type μ} (rt : Runtime S A) (e : Executor S A)
      → ((cell : Cell S CircuitBreaker)
          → e.circuit_breaker ≡ some cell
          → (fn : Proc S (Outcome A)) → Keeps P fn
          → Keeps P (breaker_execute float cell rt.clock fn))
      → IsFramed rt (record e { circuit_breaker = none })
      → (fn : Proc S (Outcome A)) → Keeps P fn
      → Keeps P (execute float rt e fn)
  unfolding execute
  execute-Keeps_by float rt e breaker f fn k =
      apply_if-Keeps e.bulkhead _ _
        (apply_if-Keeps e.timeout_config _ _
          (apply_if-Keeps e.rate_limiter _ _
            (apply_if-Keeps e.retry_config _ _
              (apply_if-Keeps e.circuit_breaker _ _
                (apply_if-Keeps e.fallback_config _ _ k
                  (λ c h. fallback-Keeps P c (f.on_fallback c h) (f.fallback c h)))
                breaker)
              (λ c h. retried-Keeps P rt c (f.on_retry c h) f.nap))
            (λ wait h. limited-Keeps P wait (f.on_limiter wait h)))
          (λ c h. timeout-Keeps P rt.race c (f.on_timeout c h) f.race))
        (λ cell h. bulkhead-Keeps cell rt.select f.sel (f.on_bulkhead cell h))

  execute-Keeps {κ μ} :
      {F : Type κ} (float : Float64 F) {A : Type μ} (rt : Runtime S A) (e : Executor S A)
      → IsFramed rt e
      → (fn : Proc S (Outcome A)) → Keeps P fn
      → Keeps P (execute float rt e fn)
  execute-Keeps float rt e f =
      execute-Keeps_by float rt e
        (λ cell h. breaker-Keeps float cell rt.clock f.tick (f.on_breaker cell h))
        (record {
          tick = f.tick;
          nap = f.nap;
          sel = f.sel;
          race = f.race;
          on_breaker = λ cell h. absurd (ground arith);
          on_retry = f.on_retry;
          on_limiter = f.on_limiter;
          on_timeout = f.on_timeout;
          on_bulkhead = f.on_bulkhead;
          on_fallback = f.on_fallback;
          fallback = f.fallback;
        })

-- Whatever patterns an executor with a bulkhead combines, a run gives back every slot that it
-- takes, when it returns and when it panics, if the other patterns and the function leave the
-- bulkhead's slots as they are.
pub executor-IsBalanced {ℓ κ μ} :
    {F : Type κ} (float : Float64 F) {S : Type ℓ} {A : Type μ} (rt : Runtime S A) (e : Executor S A)
    (cell : Cell S Bulkhead)
    → IsCell cell
    → e.bulkhead ≡ some cell
    → ((n : ℕ × ℕ) → IsFramed (λ s. slots cell rt.select s ≡ n) rt (record e { bulkhead = none }))
    → (fn : Proc S (Outcome A)) → IsBalanced cell rt.select fn
    → IsBalanced cell rt.select (execute float rt e fn)
unfolding execute
executor-IsBalanced float rt e cell lens h f fn b =
    let inner = execute float rt (record e { bulkhead = none }) in
    rw h (
      bulkhead_execute-IsBalanced cell rt.select lens (λ s. (f (slots cell rt.select s)).sel s refl)
        (inner fn)
        (λ s.
          execute-Keeps (λ s'. slots cell rt.select s' ≡ slots cell rt.select s) float rt _
            (f (slots cell rt.select s)) fn (λ s' p. b s' ∙ p) s refl))
