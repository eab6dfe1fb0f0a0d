-- ===== src/Breaker/Forced.antt =====
-- A circuit breaker that is forced open (internal/breaker/breaker.go).
use goshield_bootcamp.Base.Go.{forced_open, GoError}
use goshield_bootcamp.Base.Float.{Float64}
use goshield_bootcamp.Breaker.Core.{before_call, CircuitBreaker}
use goshield_bootcamp.Breaker.Config.{state_forced_open}
use goshield_bootcamp.Breaker.Calls.{is_slow, failed_by, count_totals}
use goshield_bootcamp.Breaker.Trace.{befores, run, answers, Op, answer, step}
use goshield_bootcamp.Base.{All, ◌≡◌, refl, Option, some, List, [], ◌∷◌, arith, replicate}

abbrev pub IsNotReset : Op → Type 0
IsNotReset Op.resets = ⊥
IsNotReset _ = Unit

module _ {ℓ} {F : Type ℓ} (float : Float64 F) where
  step_forced :
      (op : Op) (cb : CircuitBreaker)
      → IsNotReset op
      → cb.state ≡ state_forced_open
      → (cb' : CircuitBreaker) × (step float op cb ≡ some cb') × (cb'.state ≡ state_forced_open)
  unfolding step
  step_forced (Op.before now) cb n h = (_, refl, ground arith)
  step_forced Op.rejects cb n h = (_, refl, h)
  step_forced (Op.after now err d) cb n h = (
    count_totals (failed_by cb.config.is_successful err) (is_slow cb.config d) cb,
    ground arith,
    h,
  )
  step_forced (Op.observes now) cb n h = (_, refl, ground arith)
  step_forced Op.resets cb n h = absurd n
  step_forced Op.forces cb n h = (_, refl, ground arith)

  answer_forced :
      (op : Op) (cb : CircuitBreaker) (rest : List (Option GoError)) (ops : List Op)
      → cb.state ≡ state_forced_open
      → rest ≡ replicate (befores ops) (some forced_open)
      → answer op cb rest ≡ replicate (befores (op ∷ ops)) (some forced_open)
  unfolding before_call
  answer_forced (Op.before now) cb rest ops h e = ground arith
  answer_forced _ cb rest ops h e = e

  -- A breaker that is forced open stays so in every history without Reset, however much time passes
  -- and whatever outcomes come back, and refuses every call with ErrForcedOpen.
  pub forced_open_stays :
      (ops : List Op) (cb : CircuitBreaker)
      → All IsNotReset ops
      → cb.state ≡ state_forced_open
      → (answers float ops cb ≡ replicate (befores ops) (some forced_open))
        × ((cb' : CircuitBreaker) × (run float ops cb ≡ some cb') × (cb'.state ≡ state_forced_open))
  unfolding answers run
  forced_open_stays [] cb n h = (refl, (cb, refl, h))
  forced_open_stays (op ∷ ops) cb n h =
      let (cb', e, h') = step_forced op cb n.0 h in
      let (refused, stays) = forced_open_stays ops cb' n.1 h' in
      (rw (e, answers) (answer_forced op cb _ ops h refused), rw (e, run) stays)
