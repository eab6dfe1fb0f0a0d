-- ===== src/Breaker/Window.antt =====
-- The sliding window of the circuit breaker decides nothing (internal/breaker/breaker.go): the ring
-- buffer is written and never read, and the counters cover every call since the last transition.
use mathlib.Core.Path.{subst}
use mathlib.Core.Option.{some-injective}
use goshield_bootcamp.Base.Float.{Float64}
use goshield_bootcamp.Breaker.Trace.{answer, answers, Op, step}
use goshield_bootcamp.Base.Go.{GoError, Duration, Time}
use goshield_bootcamp.Breaker.Core.{
  new, before_call, check_half_open_success, count_result, CallResult, is_count, record_result,
  get_state_unsafe, transition_to, put_result, admit, CircuitBreaker,
}
use goshield_bootcamp.Breaker.Invariant.{
  new-IsValid, FitsWords, get_state_unsafe-IsValid, step-IsValid, count_totals-IsValid, IsValid,
  write_ring-some,
}
use goshield_bootcamp.Breaker.Calls.{
  failed_by, count_totals, is_slow, trips, settle, after_call, check_thresholds, reject, reset,
  force_open,
}
use goshield_bootcamp.Base.{
  ◌∙◌, ℕ, sym, List, ◌∷◌, ap, true, leb, ◌≡◌, refl, inl, inr, Bool, false, not, Option, some, [],
  arith, Bool-cases,
}
use goshield_bootcamp.Breaker.Config.{
  SlidingWindowType, Config, state_open, state_closed, state_half_open, State, sliding_window_time,
}

-- The breaker with its window settings and its ring buffer forgotten.
abbrev pub forget : CircuitBreaker → CircuitBreaker
forget cb = record cb {
  config = record (cb.config) {
    sliding_window_size = 1;
    sliding_window_type = sliding_window_time;
  };
  ring_buffer = [];
  ring_index = 0;
  ring_full = false;
}

get_state_unsafe-forget :
    (now : Time) (cb : CircuitBreaker)
    → get_state_unsafe now (forget cb) ≡ forget (get_state_unsafe now cb)
unfolding get_state_unsafe
get_state_unsafe-forget now cb = ground arith

admit-forget :
    (s : State) (cb : CircuitBreaker)
    → admit s (forget cb) ≡ ((admit s cb).0, forget (admit s cb).1)
unfolding admit
admit-forget state_half_open cb = ground arith
admit-forget _ cb = refl

transition_to-forget :
    (now : Time) (to : State) (cb : CircuitBreaker)
    → transition_to now to (forget cb) ≡ forget (transition_to now to cb)
unfolding transition_to
transition_to-forget now state_half_open cb = ground arith
transition_to-forget now _ cb = ground arith

reset-forget : (cb : CircuitBreaker) → reset (forget cb) ≡ forget (reset cb)
unfolding reset
reset-forget cb = ground arith

force_open-forget : (cb : CircuitBreaker) → force_open (forget cb) ≡ forget (force_open cb)
unfolding force_open
force_open-forget cb = ground arith

before_call-forget :
    (now : Time) (cb : CircuitBreaker)
    → before_call now (forget cb) ≡ ((before_call now cb).0, forget (before_call now cb).1)
unfolding before_call
before_call-forget now cb =
    let y = get_state_unsafe now cb in
    subst (λ z. admit z.state z ≡ ((admit y.state y).0, forget (admit y.state y).1))
      (sym (get_state_unsafe-forget now cb)) (admit-forget y.state y)

-- The results of two runs agree but for the window.
abbrev pub Agree : Option CircuitBreaker → Option CircuitBreaker → Type 0
Agree r r' = (cb : CircuitBreaker) × (r ≡ some cb) × (r' ≡ some (forget cb))

record_result-forget :
    (now : Time) (failed slow : Bool) (cb : CircuitBreaker)
    → IsValid cb
    → Agree (record_result now failed slow cb) (record_result now failed slow (forget cb))
unfolding record_result put_result count_result
record_result-forget now failed slow cb v =
    elim (Bool-cases (is_count cb.config.sliding_window_type)) [
      | inl by_count ↦
          let r : CallResult = record { success = not failed; slow = slow; time = now } in
          (
            count_result failed slow (put_result r cb),
            rw (by_count, write_ring-some r cb by_count v),
            refl,
          )
      | inr by_time ↦ (count_result failed slow cb, rw by_time, refl)
    ]

module _ {ℓ} {F : Type ℓ} (float : Float64 F) where
  trips-forget : (cb : CircuitBreaker) → trips float (forget cb) ≡ trips float cb
  unfolding trips
  trips-forget cb = refl

  check_thresholds-forget :
      (now : Time) (cb : CircuitBreaker)
      → check_thresholds float now (forget cb) ≡ forget (check_thresholds float now cb)
  unfolding check_thresholds
  check_thresholds-forget now cb = elim (Bool-cases (trips float cb)) [
    | inl h ↦ rw (trips-forget cb, h) (transition_to-forget now state_open cb)
    | inr h ↦ rw (trips-forget cb, h) refl
  ]

  check_half_open_success-forget :
      (now : Time) (cb : CircuitBreaker)
      → check_half_open_success now (forget cb) ≡ forget (check_half_open_success now cb)
  unfolding check_half_open_success
  check_half_open_success-forget now cb =
      elim (Bool-cases (leb cb.half_open_allowed cb.total_calls)) [
        | inl h ↦ rw h (transition_to-forget now state_closed cb)
        | inr h ↦ rw h refl
      ]

  settle-forget :
      (s : State) (now : Time) (failed slow : Bool) (cb : CircuitBreaker)
      → IsValid cb
      → Agree (settle float s now failed slow cb) (settle float s now failed slow (forget cb))
  unfolding settle
  settle-forget state_closed now failed slow cb v =
      let (cb', e, e') = record_result-forget now failed slow cb v in
      (
        check_thresholds float now cb',
        rw (e, settle),
        rw (e', settle) (ap some (check_thresholds-forget now cb')),
      )
  settle-forget state_half_open now true slow cb v =
      let (cb', e, e') = record_result-forget now true slow cb v in
      (
        transition_to now state_open cb',
        rw (e, settle),
        rw (e', settle) (ap some (transition_to-forget now state_open cb')),
      )
  settle-forget state_half_open now false slow cb v =
      let (cb', e, e') = record_result-forget now false slow cb v in
      (
        check_half_open_success now cb',
        rw (e, settle),
        rw (e', settle) (ap some (check_half_open_success-forget now cb')),
      )
  settle-forget _ now failed slow cb v = (cb, refl, refl)

  after_call-forget :
      (now : Time) (err : Option GoError) (d : Duration) (cb : CircuitBreaker)
      → IsValid cb
      → Agree (after_call float now err d cb) (after_call float now err d (forget cb))
  unfolding after_call
  after_call-forget now err d cb v =
      let failed = failed_by cb.config.is_successful err in
      let slow = is_slow cb.config d in
      let x = count_totals failed slow cb in
      let y = get_state_unsafe now x in
      subst
        (λ z.
          Agree (settle float y.state now failed slow y) (settle float z.state now failed slow z))
        (sym (get_state_unsafe-forget now x))
        (settle-forget y.state now failed slow y
          (get_state_unsafe-IsValid now (count_totals-IsValid failed slow v)))

  pub step-forget :
      (op : Op) (cb : CircuitBreaker)
      → IsValid cb
      → Agree (step float op cb) (step float op (forget cb))
  unfolding step before_call reject
  step-forget (Op.before now) cb v = (_, refl, ap (λ r. some r.1) (before_call-forget now cb))
  step-forget Op.rejects cb v = (_, refl, refl)
  step-forget (Op.after now err d) cb v = after_call-forget now err d cb v
  step-forget (Op.observes now) cb v = (_, refl, ap some (get_state_unsafe-forget now cb))
  step-forget Op.resets cb v = (_, refl, ap some (reset-forget cb))
  step-forget Op.forces cb v = (_, refl, ap some (force_open-forget cb))

  answer-forget :
      (op : Op) (cb : CircuitBreaker) (rest : List (Option GoError))
      → answer op (forget cb) rest ≡ answer op cb rest
  unfolding before_call
  answer-forget (Op.before now) cb rest = ap (λ r. r.0 ∷ rest) (before_call-forget now cb)
  answer-forget _ cb rest = refl

  answers-forget :
      (ops : List Op) (cb : CircuitBreaker)
      → IsValid cb
      → answers float ops (forget cb) ≡ answers float ops cb
  unfolding answers
  answers-forget [] cb v = refl
  answers-forget (op ∷ ops) cb v =
      let (cb', e, e') = step-forget op cb v in
      let (_, same, v') = step-IsValid float op cb v in
      rw (e', e, answers)
        (answer-forget op cb _
          ∙ ap (answer op cb)
              (answers-forget ops cb' (subst IsValid (some-injective _ _ (sym same ∙ e)) v')))

  -- Two new breakers whose configurations differ in SlidingWindowSize and SlidingWindowType alone
  -- answer every history of critical sections alike: those settings decide nothing.
  pub window_decides_nothing :
      (c : Config) (size : ℕ) (by : SlidingWindowType)
      → FitsWords c
      → (ops : List Op)
      → answers float ops (new (record c { sliding_window_size = size; sliding_window_type = by }))
        ≡ answers float ops (new c)
  unfolding new
  window_decides_nothing c size by f ops =
      let d : Config = record c { sliding_window_size = size; sliding_window_type = by } in
      let same : forget (new d) ≡ forget (new c) = refl in
      sym (answers-forget ops (new d) (new-IsValid d (record { requests = f.requests })))
      ∙ ap (answers float ops) same
      ∙ answers-forget ops (new c) (new-IsValid c f)
