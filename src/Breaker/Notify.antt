-- ===== src/Breaker/Notify.antt =====
-- The state machine of the circuit breaker, and the changes of state that OnStateChange is told
-- (internal/breaker/breaker.go).
use goshield_bootcamp.Base.Int.{◌≤ℤ◌, leb_ℤ}
use goshield_bootcamp.Breaker.Invariant.{
  count_totals-IsValid, record_result-IsValid, get_state_unsafe-IsValid, IsValid,
}
use mathlib.Core.Option.{some-injective}
use goshield_bootcamp.Base.Float.{Float64}
use mathlib.Core.Path.{subst}
use goshield_bootcamp.Breaker.Calls.{
  after_call, is_slow, reject, failed_by, count_totals, check_thresholds, settle, trips, reset,
  force_open,
}
use goshield_bootcamp.Base.Go.{GoError, since, Duration, Time}
use goshield_bootcamp.Breaker.Core.{
  before_call, check_half_open_success, record_result, admit, CircuitBreaker, transition_to,
  get_state_unsafe,
}
use goshield_bootcamp.Breaker.Trace.{step, Op}
use goshield_bootcamp.Base.{
  ◌&&◌, Option, refl, ◌∙◌, Bool, some, leb, sym, inl, inr, false, arith, Bool-cases, ◌≡◌, true,
  List, ◌∷◌, if◌then◌else◌,
}
use goshield_bootcamp.Breaker.Config.{
  same_state, state_half_open, state_open, state_forced_open, State, state_closed,
}

-- A section that reads the clock finds an open breaker whose timeout has passed.
abbrev pub is_due : Time → CircuitBreaker → Bool
is_due now cb = same_state cb.state state_open && leb_ℤ cb.config.timeout (since now cb.open_since)

abbrev pub lapses : Op → CircuitBreaker → Bool
lapses (Op.before now) cb = is_due now cb
lapses (Op.after now err d) cb = is_due now cb
lapses (Op.observes now) cb = is_due now cb
lapses _ cb = false

-- The trace of the callbacks after a change of state from `s` to `t`.
abbrev pub told : State → State → List (State × State) → List (State × State)
told s t log = if same_state s t then log else (s, t) ∷ log

-- The state diagram, by the section that makes the change.
pub data Edge : Op → State → State → Type 0 where
  stays : {op : Op} {s : State} → Edge op s s
  trip :
      {now : Time} {err : Option GoError} {d : Duration}
      → Edge (Op.after now err d) state_closed state_open
  probe_fails :
      {now : Time} {err : Option GoError} {d : Duration}
      → Edge (Op.after now err d) state_half_open state_open
  recovers :
      {now : Time} {err : Option GoError} {d : Duration}
      → Edge (Op.after now err d) state_half_open state_closed
  reset_by_user : {s : State} → Edge Op.resets s state_closed
  forced_by_user : {s : State} → Edge Op.forces s state_forced_open

-- What a critical section does to the state and to the trace, once it has found `cb`.
abbrev pub Follows : Op → CircuitBreaker → CircuitBreaker → Type 0
Follows op cb cb' = Edge op cb.state cb'.state × (cb'.spawned ≡ told cb.state cb'.state cb.spawned)

eq_of_same_state : (s t : State) → same_state s t ≡ true → s ≡ t
eq_of_same_state s t h = ground arith

Follows-of_eq :
    (op : Op) (cb cb' : CircuitBreaker)
    → cb'.state ≡ cb.state
    → cb'.spawned ≡ cb.spawned
    → Follows op cb cb'
Follows-of_eq op cb cb' e f = (subst (Edge op cb.state) (sym e) Edge.stays, ground arith)

Follows-of_change :
    (op : Op) (cb cb' : CircuitBreaker)
    → Edge op cb.state cb'.state
    → same_state cb.state cb'.state ≡ false
    → cb'.spawned ≡ (cb.state, cb'.state) ∷ cb.spawned
    → Follows op cb cb'
Follows-of_change op cb cb' e d f = (e, rw d f)

transition_to-Follows :
    (op : Op) (now : Time) (to : State) (cb : CircuitBreaker)
    → cb.config.on_state_change ≡ true
    → Edge op cb.state to
    → Follows op cb (transition_to now to cb)
unfolding transition_to
transition_to-Follows op now to cb cs e = elim (Bool-cases (same_state cb.state to)) [
  | inl h ↦ Follows-of_eq op cb (transition_to now to cb) (ground arith) (ground arith)
  | inr h ↦
      let there : (transition_to now to cb).state ≡ to = ground arith in
      Follows-of_change op cb (transition_to now to cb) (subst (Edge op cb.state) (sym there) e)
        (rw there h) (ground arith)
]

reset-Follows :
    (cb : CircuitBreaker) → cb.config.on_state_change ≡ true → Follows Op.resets cb (reset cb)
unfolding reset
reset-Follows cb cs = elim (Bool-cases (same_state cb.state state_closed)) [
  | inl h ↦ Follows-of_eq Op.resets cb (reset cb) (ground arith) (ground arith)
  | inr h ↦
      let there : (reset cb).state ≡ state_closed = ground arith in
      Follows-of_change Op.resets cb (reset cb)
        (subst (Edge Op.resets cb.state) (sym there) Edge.reset_by_user) (rw there h) (ground arith)
]

force_open-Follows :
    (cb : CircuitBreaker) → cb.config.on_state_change ≡ true → Follows Op.forces cb (force_open cb)
unfolding force_open
force_open-Follows cb cs = elim (Bool-cases (same_state cb.state state_forced_open)) [
  | inl h ↦ Follows-of_eq Op.forces cb (force_open cb) (ground arith) (ground arith)
  | inr h ↦
      let there : (force_open cb).state ≡ state_forced_open = ground arith in
      Follows-of_change Op.forces cb (force_open cb)
        (subst (Edge Op.forces cb.state) (sym there) Edge.forced_by_user) (rw there h)
        (ground arith)
]

-- The lazy transition is open → half-open, and tells nobody.
get_state_unsafe-silent :
    (now : Time) (cb : CircuitBreaker)
    → ((get_state_unsafe now cb).spawned ≡ cb.spawned)
      × ((get_state_unsafe now cb).config ≡ cb.config)
unfolding get_state_unsafe
get_state_unsafe-silent now cb = ground arith

Follows-lazily :
    (op : Op) (now : Time) (cb cb' : CircuitBreaker)
    → Follows op (get_state_unsafe now cb) cb'
    → let s = (get_state_unsafe now cb).state in
      Edge op s cb'.state × (cb'.spawned ≡ told s cb'.state cb.spawned)
Follows-lazily op now cb cb' (e, t) = (e, rw (get_state_unsafe-silent now cb).0 at t)

admit-keeps :
    (s : State) (cb : CircuitBreaker)
    → ((admit s cb).1.state ≡ cb.state) × ((admit s cb).1.spawned ≡ cb.spawned)
unfolding admit
admit-keeps state_half_open cb = ground arith
admit-keeps _ cb = (refl, refl)

record_result-silent :
    (now : Time) (failed slow : Bool) (cb cb' : CircuitBreaker)
    → record_result now failed slow cb ≡ some cb'
    → (cb'.state ≡ cb.state) × (cb'.spawned ≡ cb.spawned) × (cb'.config ≡ cb.config)
unfolding record_result
record_result-silent now failed slow cb cb' e = ground arith

-- Where a step keeps the state and the trace of `cb`, what follows it follows `cb`.
Follows-from :
    (op : Op) (cb r cb' : CircuitBreaker)
    → r.state ≡ cb.state
    → r.spawned ≡ cb.spawned
    → Follows op r cb'
    → Follows op cb cb'
Follows-from op cb r cb' e f (g, t) = (subst (λ s. Edge op s cb'.state) e g, rw (← e, ← f) t)

module _ {ℓ} {F : Type ℓ} (float : Float64 F) where
  check_thresholds-Follows :
      (now : Time) (err : Option GoError) (d : Duration) (cb : CircuitBreaker)
      → cb.config.on_state_change ≡ true
      → cb.state ≡ state_closed
      → Follows (Op.after now err d) cb (check_thresholds float now cb)
  unfolding check_thresholds
  check_thresholds-Follows now err d cb cs h = elim (Bool-cases (trips float cb)) [
    | inl t ↦
        rw t (transition_to-Follows (Op.after now err d) now state_open cb cs (rw h Edge.trip))
    | inr t ↦ rw t (Follows-of_eq (Op.after now err d) cb cb refl refl)
  ]

  check_half_open_success-Follows :
      (now : Time) (err : Option GoError) (d : Duration) (cb : CircuitBreaker)
      → cb.config.on_state_change ≡ true
      → cb.state ≡ state_half_open
      → Follows (Op.after now err d) cb (check_half_open_success now cb)
  unfolding check_half_open_success
  check_half_open_success-Follows now err d cb cs h =
      elim (Bool-cases (leb cb.half_open_allowed cb.total_calls)) [
        | inl t ↦
            rw t (
              transition_to-Follows (Op.after now err d) now state_closed cb cs
                (rw h Edge.recovers))
        | inr t ↦ rw t (Follows-of_eq (Op.after now err d) cb cb refl refl)
      ]

  judged-Follows :
      (s : State) (now : Time) (err : Option GoError) (d : Duration) (failed slow : Bool)
      (cb r cb' : CircuitBreaker)
      → cb.config.on_state_change ≡ true
      → cb.state ≡ s
      → record_result now failed slow cb ≡ some r
      → settle float s now failed slow cb ≡ some cb'
      → Follows (Op.after now err d) cb cb'
  unfolding settle
  judged-Follows state_closed now err d failed slow cb r cb' cs h ok e =
      let (a, b, c) = record_result-silent now failed slow cb r ok in
      let done : check_thresholds float now r ≡ cb' = some-injective _ _ (rw (ok, settle) at e) in
      subst (Follows (Op.after now err d) cb) done (
        Follows-from (Op.after now err d) cb r (check_thresholds float now r) a b
          (check_thresholds-Follows now err d r (rw c cs) (a ∙ h)))
  judged-Follows state_half_open now err d true slow cb r cb' cs h ok e =
      let (a, b, c) = record_result-silent now true slow cb r ok in
      let done : transition_to now state_open r ≡ cb' = some-injective _ _ (rw (ok, settle) at e) in
      subst (Follows (Op.after now err d) cb) done (
        Follows-from (Op.after now err d) cb r (transition_to now state_open r) a b (
          transition_to-Follows (Op.after now err d) now state_open r (rw c cs)
            (rw (a ∙ h) Edge.probe_fails)))
  judged-Follows state_half_open now err d false slow cb r cb' cs h ok e =
      let (a, b, c) = record_result-silent now false slow cb r ok in
      let done : check_half_open_success now r ≡ cb' = some-injective _ _ (rw (ok, settle) at e) in
      subst (Follows (Op.after now err d) cb) done (
        Follows-from (Op.after now err d) cb r (check_half_open_success now r) a b
          (check_half_open_success-Follows now err d r (rw c cs) (a ∙ h)))
  judged-Follows _ now err d failed slow cb r cb' cs h ok e =
      subst (Follows (Op.after now err d) cb) (some-injective _ _ e)
        (Follows-of_eq (Op.after now err d) cb cb refl refl)

  after_call-Follows :
      (now : Time) (err : Option GoError) (d : Duration) (cb cb' : CircuitBreaker)
      → IsValid cb
      → cb.config.on_state_change ≡ true
      → after_call float now err d cb ≡ some cb'
      → Follows
          (Op.after now err d)
          (get_state_unsafe now
            (count_totals (failed_by cb.config.is_successful err) (is_slow cb.config d) cb))
          cb'
  unfolding after_call
  after_call-Follows now err d cb cb' v cs e =
      let failed = failed_by cb.config.is_successful err in
      let slow = is_slow cb.config d in
      let x = count_totals failed slow cb in
      let y = get_state_unsafe now x in
      let (r, ok, _) =
        record_result-IsValid now failed slow y
          (get_state_unsafe-IsValid now (count_totals-IsValid failed slow v)) in
      judged-Follows y.state now err d failed slow y r cb' (rw (get_state_unsafe-silent now x).1 cs)
        refl ok e

  found_after :
      (now : Time) (failed slow : Bool) (cb : CircuitBreaker)
      → ((get_state_unsafe now (count_totals failed slow cb)).state
          ≡ (get_state_unsafe now cb).state)
        × ((get_state_unsafe now (count_totals failed slow cb)).spawned ≡ cb.spawned)
  unfolding get_state_unsafe count_totals
  found_after now failed slow cb = ground arith

  found_lazily :
      (now : Time) (cb : CircuitBreaker)
      → (get_state_unsafe now cb).state ≡ (if is_due now cb then state_half_open else cb.state)
  unfolding get_state_unsafe
  found_lazily now cb = ground arith

  -- With the callback set, a critical section of a valid breaker makes at most two changes of its
  -- state. First, if it reads the clock and finds the breaker open with its timeout passed, the
  -- lazy change to half-open, of which OnStateChange is never told. Then a change along an edge of
  -- the state diagram that such a section has, or none: the callback is spawned exactly once, with
  -- the two states of this change, if they differ, and not at all if they agree.
  pub step-told :
      (op : Op) (cb cb' : CircuitBreaker)
      → IsValid cb
      → cb.config.on_state_change ≡ true
      → step float op cb ≡ some cb'
      → Edge op (if lapses op cb then state_half_open else cb.state) cb'.state
        × (cb'.spawned
            ≡ told (if lapses op cb then state_half_open else cb.state) cb'.state cb.spawned)
  unfolding step before_call reject
  step-told (Op.before now) cb cb' v cs e =
      let y = get_state_unsafe now cb in
      rw (← found_lazily now cb) (
        subst
          (λ z.
            Edge (Op.before now) y.state z.state × (z.spawned ≡ told y.state z.state cb.spawned))
          (some-injective _ _ e)
          (Follows-lazily (Op.before now) now cb (admit y.state y).1 (
            Follows-of_eq (Op.before now) y (admit y.state y).1 (admit-keeps y.state y).0
              (admit-keeps y.state y).1)))
  step-told Op.rejects cb cb' v cs e =
      subst (Follows Op.rejects cb) (some-injective _ _ e)
        (Follows-of_eq Op.rejects cb (reject cb) refl refl)
  step-told (Op.after now err d) cb cb' v cs e =
      let failed = failed_by cb.config.is_successful err in
      let slow = is_slow cb.config d in
      let (a, b) = found_after now failed slow cb in
      let (edge, log) = after_call-Follows now err d cb cb' v cs e in
      rw (← found_lazily now cb) ((rw a at edge, rw (a, b) at log))
  step-told (Op.observes now) cb cb' v cs e =
      let y = get_state_unsafe now cb in
      rw (← found_lazily now cb) (
        subst
          (λ z.
            Edge (Op.observes now) y.state z.state × (z.spawned ≡ told y.state z.state cb.spawned))
          (some-injective _ _ e)
          (Follows-lazily (Op.observes now) now cb y
            (Follows-of_eq (Op.observes now) y y refl refl)))
  step-told Op.resets cb cb' v cs e =
      subst (Follows Op.resets cb) (some-injective _ _ e) (reset-Follows cb cs)
  step-told Op.forces cb cb' v cs e =
      subst (Follows Op.forces cb) (some-injective _ _ e) (force_open-Follows cb cs)

-- The lazy transition of an open breaker whose timeout has passed changes its state to half-open,
-- and OnStateChange is not called and the transition not counted.
pub half_open_untold :
    (now : Time) (cb : CircuitBreaker)
    → cb.state ≡ state_open
    → cb.config.timeout ≤ℤ since now cb.open_since
    → let cb' = get_state_unsafe now cb in
      (cb'.state ≡ state_half_open)
      × (cb'.spawned ≡ cb.spawned)
      × (cb'.state_transitions ≡ cb.state_transitions)
unfolding get_state_unsafe
half_open_untold now cb h t = ground arith
