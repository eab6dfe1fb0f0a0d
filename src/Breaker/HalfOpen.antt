-- ===== src/Breaker/HalfOpen.antt =====
-- How many probes a half-open circuit breaker lets through (internal/breaker/breaker.go).
use mathlib.Core.Path.{subst}
use mathlib.Core.Option.{some-injective}
use goshield_bootcamp.Base.Float.{Float64}
use goshield_bootcamp.Breaker.Calls.{is_slow, failed_by, settle, count_totals, after_call}
use goshield_bootcamp.Base.Go.{Duration, GoError, too_many_requests, Time}
use goshield_bootcamp.Breaker.Core.{get_state_unsafe, before_call, CircuitBreaker, record_result}
use goshield_bootcamp.Breaker.Invariant.{step-IsValid, IsValid}
use goshield_bootcamp.Breaker.Config.{same_state, State, state_half_open}
use goshield_bootcamp.Breaker.Trace.{answer, befores, step, answers, Op}
use goshield_bootcamp.Base.{
  Option-cases, ◌≤◌, inl, inr, true, Option, Bool-cases, if◌then◌else◌, replicate, All, ℕ, ◌+◌, ◌≡◌,
  refl, Bool, none, some, List, [], ◌∷◌, arith,
}

-- 1 if the critical section admits a call.
abbrev pub admissions : Op → CircuitBreaker → ℕ
unfolding before_call
admissions (Op.before now) cb = elim (before_call now cb).0 [ none ↦ 1 | some e ↦ 0 ]
admissions _ cb = 0

-- No outcome of a call comes back, and nobody intervenes.
abbrev pub IsQuiet : Op → Type 0
IsQuiet (Op.after now err d) = ⊥
IsQuiet Op.resets = ⊥
IsQuiet Op.forces = ⊥
IsQuiet _ = Unit

-- One critical section, from half-open to half-open, counts what it admits.
abbrev pub Counts : ℕ → CircuitBreaker → CircuitBreaker → Type 0
Counts n cb cb' =
    (n + cb.half_open_count ≡ cb'.half_open_count) × (cb'.half_open_allowed ≡ cb.half_open_allowed)

before-Counts :
    (now : Time) (cb : CircuitBreaker)
    → IsValid cb
    → cb.state ≡ state_half_open
    → Counts (admissions (Op.before now) cb) cb (before_call now cb).1
unfolding before_call
before-Counts now cb v h = ground (arith, v.within h)

record_result-keeps :
    (now : Time) (failed slow : Bool) (cb cb' : CircuitBreaker)
    → record_result now failed slow cb ≡ some cb'
    → (cb'.half_open_count ≡ cb.half_open_count)
      × (cb'.half_open_allowed ≡ cb.half_open_allowed)
      × (cb'.state ≡ cb.state)
unfolding record_result
record_result-keeps now failed slow cb cb' e = ground arith

get_state_half_open :
    (now : Time) (cb : CircuitBreaker) → cb.state ≡ state_half_open → get_state_unsafe now cb ≡ cb
unfolding get_state_unsafe
get_state_half_open now cb h = ground arith

module _ {ℓ} {F : Type ℓ} (float : Float64 F) where
  settle-Counts :
      (now : Time) (failed slow : Bool) (cb cb' : CircuitBreaker)
      → cb.state ≡ state_half_open
      → settle float state_half_open now failed slow cb ≡ some cb'
      → cb'.state ≡ state_half_open
      → Counts 0 cb cb'
  unfolding settle
  settle-Counts now failed slow cb cb' h e h' =
      elim (Option-cases (record_result now failed slow cb)) [
        | inl fails ↦ ground arith
        | inr (r, ok) ↦ ground (arith, record_result-keeps now failed slow cb r ok)
      ]

  after-Counts :
      (now : Time) (err : Option GoError) (d : Duration) (cb cb' : CircuitBreaker)
      → cb.state ≡ state_half_open
      → after_call float now err d cb ≡ some cb'
      → cb'.state ≡ state_half_open
      → Counts 0 cb cb'
  unfolding after_call
  after-Counts now err d cb cb' h e h' =
      let failed = failed_by cb.config.is_successful err in
      let slow = is_slow cb.config d in
      let x = count_totals failed slow cb in
      let e₁ =
        subst (λ z. settle float z.state now failed slow z ≡ some cb') (get_state_half_open now x h)
          e in
      settle-Counts now failed slow x cb' h
        (subst (λ t. settle float t now failed slow x ≡ some cb') h e₁) h'

  step-Counts :
      (op : Op) (cb cb' : CircuitBreaker)
      → IsValid cb
      → cb.state ≡ state_half_open
      → step float op cb ≡ some cb'
      → cb'.state ≡ state_half_open
      → Counts (admissions op cb) cb cb'
  unfolding step
  step-Counts (Op.before now) cb cb' v h e h' =
      subst (Counts (admissions (Op.before now) cb) cb) (some-injective _ _ e)
        (before-Counts now cb v h)
  step-Counts Op.rejects cb cb' v h e h' = ground arith
  step-Counts (Op.after now err d) cb cb' v h e h' = after-Counts now err d cb cb' h e h'
  step-Counts (Op.observes now) cb cb' v h e h' = ground arith
  step-Counts Op.resets cb cb' v h e h' = ground arith
  step-Counts Op.forces cb cb' v h e h' = ground arith

  -- The calls admitted along a history for as long as the breaker stays half-open.
  unfoldable pub probes : List Op → CircuitBreaker → ℕ
  probes [] cb = 0
  probes (op ∷ ops) cb = elim (step float op cb) [
    | none ↦ 0
    | some cb' ↦
        let rest = probes ops cb' in
        if same_state cb'.state state_half_open then admissions op cb + rest else 0
  ]

  same_state-eq : (a : State) → same_state a state_half_open ≡ true → a ≡ state_half_open
  same_state-eq state_half_open e = refl
  same_state-eq _ e = cc

  -- While a valid breaker stays half-open it admits, in any history of critical sections, no more
  -- calls than are left of the half_open_allowed probes.
  pub probes-le :
      (ops : List Op) (cb : CircuitBreaker)
      → IsValid cb
      → cb.state ≡ state_half_open
      → probes ops cb + cb.half_open_count ≤ cb.half_open_allowed
  unfolding probes
  probes-le [] cb v h = omega (arith, v.within h)
  probes-le (op ∷ ops) cb v h =
      let (cb', e, v') = step-IsValid float op cb v in
      elim (Bool-cases (same_state cb'.state state_half_open)) [
        | inl stays ↦
            let h' = same_state-eq cb'.state stays in
            rw (e, probes)
              (rw stays (omega (arith, step-Counts op cb cb' v h e h', probes-le ops cb' v' h')))
        | inr leaves ↦ rw (e, probes) (rw leaves (omega (arith, v.within h)))
      ]

  step_quiet :
      (op : Op) (cb : CircuitBreaker)
      → IsQuiet op
      → cb.state ≡ state_half_open
      → cb.half_open_allowed ≤ cb.half_open_count
      → (cb' : CircuitBreaker) × (step float op cb ≡ some cb')
        × (cb'.state ≡ state_half_open)
        × (cb'.half_open_allowed ≤ cb'.half_open_count)
  unfolding step
  step_quiet (Op.before now) cb q h full = (cb, ground arith, h, full)
  step_quiet Op.rejects cb q h full = (_, refl, h, full)
  step_quiet (Op.after now err d) cb q h full = absurd q
  step_quiet (Op.observes now) cb q h full = (cb, ground arith, h, full)
  step_quiet Op.resets cb q h full = absurd q
  step_quiet Op.forces cb q h full = absurd q

  answer_exhausted :
      (op : Op) (cb : CircuitBreaker) (rest : List (Option GoError)) (ops : List Op)
      → cb.state ≡ state_half_open
      → cb.half_open_allowed ≤ cb.half_open_count
      → rest ≡ replicate (befores ops) (some too_many_requests)
      → answer op cb rest ≡ replicate (befores (op ∷ ops)) (some too_many_requests)
  unfolding before_call
  answer_exhausted (Op.before now) cb rest ops h full e = ground arith
  answer_exhausted _ cb rest ops h full e = e

  -- Once the probes are used up and none of their outcomes comes back (as when the probed function
  -- panics, since Execute then skips afterCall), every further call is refused, whatever time
  -- passes.
  pub answers_exhausted :
      (ops : List Op) (cb : CircuitBreaker)
      → cb.state ≡ state_half_open
      → cb.half_open_allowed ≤ cb.half_open_count
      → All IsQuiet ops
      → answers float ops cb ≡ replicate (befores ops) (some too_many_requests)
  unfolding answers
  answers_exhausted [] cb h full q = refl
  answers_exhausted (op ∷ ops) cb h full q =
      let (cb', e, h', full') = step_quiet op cb q.0 h full in
      rw (e, answers) (answer_exhausted op cb _ ops h full (answers_exhausted ops cb' h' full' q.1))
