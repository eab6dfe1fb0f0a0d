-- ===== src/Breaker/Invariant.antt =====
-- What holds of a circuit breaker between two critical sections, and that none of them panics
-- (internal/breaker/breaker.go).
use goshield_bootcamp.Base.{
  ℕ, not, leb, ◌+◌, ◌%◌, ◌≤◌, ◌<◌, ◌≡◌, refl, Bool, true, false, Option, some, List, [], ◌∷◌, arith,
  length, inl, inr, Bool-cases, length-set, length-replicate,
}
use goshield_bootcamp.Base.Go.{Time, u32_mod, GoError, Duration}
use goshield_bootcamp.Base.Float.{Float64}
use goshield_bootcamp.Breaker.Config.{
  Config, state_half_open, State, state_open, state_closed, with_defaults,
}
use goshield_bootcamp.Breaker.Core.{
  CircuitBreaker, CallResult, is_count, make_ring, zero_result, new, clear_window, get_state_unsafe,
  admit, before_call, write_ring, put_result, count_result, record_result, transition_to,
  check_half_open_success,
}
use goshield_bootcamp.Breaker.Calls.{
  reset, force_open, count_totals, check_thresholds, settle, after_call, trips, reject,
}
use goshield_bootcamp.Breaker.Trace.{Op, step, run}

-- The ranges of the uint32 fields that the proofs use.
pub record FitsWords (c : Config) : Type 0 where
  pub requests : c.max_requests < u32_mod

pub record IsValid (cb : CircuitBreaker) : Type 0 where
  pub sized : 0 < cb.config.sliding_window_size
  pub ring :
      is_count cb.config.sliding_window_type ≡ true
      → length cb.ring_buffer ≡ cb.config.sliding_window_size
  pub index :
      is_count cb.config.sliding_window_type ≡ true → cb.ring_index < cb.config.sliding_window_size
  pub counted : cb.total_calls ≡ (cb.successes + cb.failures) % u32_mod
  pub some_requests : 0 < cb.config.max_requests
  pub requests : cb.config.max_requests < u32_mod
  pub allowed : cb.state ≡ state_half_open → cb.half_open_allowed ≡ cb.config.max_requests
  pub within : cb.state ≡ state_half_open → cb.half_open_count ≤ cb.half_open_allowed

pub length-make_ring : (c : Config) → length (make_ring c) ≡ c.sliding_window_size
length-make_ring c = length-replicate c.sliding_window_size zero_result

pub new-IsValid : (c : Config) → FitsWords c → IsValid (new c)
unfolding new
new-IsValid c f = ground (arith, length-replicate (with_defaults c).sliding_window_size zero_result)

clear_window-IsValid : {cb : CircuitBreaker} → IsValid cb → IsValid (clear_window cb)
unfolding clear_window
clear_window-IsValid {cb} v = ground (arith, length-make_ring cb.config)

pub get_state_unsafe-IsValid :
    (now : Time) {cb : CircuitBreaker} → IsValid cb → IsValid (get_state_unsafe now cb)
unfolding get_state_unsafe
get_state_unsafe-IsValid now {cb} v = ground (arith, length-make_ring cb.config)

admit-IsValid :
    (s : State) {cb : CircuitBreaker} → cb.state ≡ s → IsValid cb → IsValid (admit s cb).1
unfolding admit
admit-IsValid state_half_open e v = ground arith
admit-IsValid _ e v = ground arith

pub before_call-IsValid :
    (now : Time) (cb : CircuitBreaker) → IsValid cb → IsValid (before_call now cb).1
unfolding before_call
before_call-IsValid now cb v = admit-IsValid _ refl (get_state_unsafe-IsValid now v)

transition_to-IsValid :
    (now : Time) (to : State) {cb : CircuitBreaker} → IsValid cb → IsValid (transition_to now to cb)
unfolding transition_to
transition_to-IsValid now state_half_open {cb} v = ground (arith, length-make_ring cb.config)
transition_to-IsValid now _ {cb} v = ground (arith, length-make_ring cb.config)

reset-IsValid : {cb : CircuitBreaker} → IsValid cb → IsValid (reset cb)
unfolding reset
reset-IsValid {cb} v = ground (arith, length-make_ring cb.config)

force_open-IsValid : {cb : CircuitBreaker} → IsValid cb → IsValid (force_open cb)
unfolding force_open
force_open-IsValid {cb} v = ground arith

pub count_totals-IsValid :
    (failed slow : Bool) {cb : CircuitBreaker} → IsValid cb → IsValid (count_totals failed slow cb)
unfolding count_totals
count_totals-IsValid failed slow v = ground arith

count_result-IsValid :
    (failed slow : Bool) {cb : CircuitBreaker} → IsValid cb → IsValid (count_result failed slow cb)
unfolding count_result
count_result-IsValid true slow v = ground arith
count_result-IsValid false slow v = ground arith

index_in_range : (n m : ℕ) → 0 < m → n % m < m
index_in_range n m h = omega arith

put_result-IsValid :
    (r : CallResult) {cb : CircuitBreaker}
    → is_count cb.config.sliding_window_type ≡ true
    → IsValid cb
    → IsValid (put_result r cb)
unfolding put_result
put_result-IsValid r {cb} by_count v = ground (
  arith,
  length-set cb.ring_buffer cb.ring_index r,
  index_in_range (cb.ring_index + 1) (length cb.ring_buffer),
)

-- A valid breaker's write to the ring buffer is in range.
pub write_ring-some :
    (r : CallResult) (cb : CircuitBreaker)
    → is_count cb.config.sliding_window_type ≡ true
    → IsValid cb
    → write_ring r cb ≡ some (put_result r cb)
unfolding write_ring
write_ring-some r cb by_count v = ground arith

-- `cb` runs to `cb'` with no panic, and `cb'` is valid.
abbrev pub Succeeds : Option CircuitBreaker → Type 0
Succeeds r = (cb : CircuitBreaker) × (r ≡ some cb) × IsValid cb

pub record_result-IsValid :
    (now : Time) (failed slow : Bool) (cb : CircuitBreaker)
    → IsValid cb
    → Succeeds (record_result now failed slow cb)
unfolding record_result
record_result-IsValid now failed slow cb v =
    elim (Bool-cases (is_count cb.config.sliding_window_type)) [
      | inl by_count ↦
          let r : CallResult = record { success = not failed; slow = slow; time = now } in
          (
            count_result failed slow (put_result r cb),
            rw (by_count, write_ring-some r cb by_count v),
            count_result-IsValid failed slow (put_result-IsValid r by_count v),
          )
      | inr by_time ↦ (count_result failed slow cb, rw by_time, count_result-IsValid failed slow v)
    ]

module _ {ℓ} {F : Type ℓ} (float : Float64 F) where
  check_thresholds-IsValid :
      (now : Time) {cb : CircuitBreaker} → IsValid cb → IsValid (check_thresholds float now cb)
  unfolding check_thresholds
  check_thresholds-IsValid now {cb} v = elim (Bool-cases (trips float cb)) [
    | inl yes' ↦ rw yes' (transition_to-IsValid now state_open v)
    | inr no' ↦ rw no' v
  ]

  check_half_open_success-IsValid :
      (now : Time) {cb : CircuitBreaker} → IsValid cb → IsValid (check_half_open_success now cb)
  unfolding check_half_open_success
  check_half_open_success-IsValid now {cb} v =
      elim (Bool-cases (leb cb.half_open_allowed cb.total_calls)) [
        | inl yes' ↦ rw yes' (transition_to-IsValid now state_closed v)
        | inr no' ↦ rw no' v
      ]

  settle-IsValid :
      (s : State) (now : Time) (failed slow : Bool) (cb : CircuitBreaker)
      → IsValid cb
      → Succeeds (settle float s now failed slow cb)
  unfolding settle
  settle-IsValid state_closed now failed slow cb v =
      let (cb', e, v') = record_result-IsValid now failed slow cb v in
      (check_thresholds float now cb', rw (e, settle), check_thresholds-IsValid now v')
  settle-IsValid state_half_open now true slow cb v =
      let (cb', e, v') = record_result-IsValid now true slow cb v in
      (transition_to now state_open cb', rw (e, settle), transition_to-IsValid now state_open v')
  settle-IsValid state_half_open now false slow cb v =
      let (cb', e, v') = record_result-IsValid now false slow cb v in
      (check_half_open_success now cb', rw (e, settle), check_half_open_success-IsValid now v')
  settle-IsValid _ now failed slow cb v = (cb, refl, v)

  pub after_call-IsValid :
      (now : Time) (err : Option GoError) (d : Duration) (cb : CircuitBreaker)
      → IsValid cb
      → Succeeds (after_call float now err d cb)
  unfolding after_call
  after_call-IsValid now err d cb v =
      settle-IsValid _ now _ _ _ (get_state_unsafe-IsValid now (count_totals-IsValid _ _ v))

  -- From a valid breaker every critical section succeeds, and leaves it valid.
  pub step-IsValid : (op : Op) (cb : CircuitBreaker) → IsValid cb → Succeeds (step float op cb)
  unfolding step before_call reject
  step-IsValid (Op.before now) cb v = (_, refl, before_call-IsValid now cb v)
  step-IsValid Op.rejects cb v = (_, refl, ground arith)
  step-IsValid (Op.after now err d) cb v = after_call-IsValid now err d cb v
  step-IsValid (Op.observes now) cb v = (_, refl, get_state_unsafe-IsValid now v)
  step-IsValid Op.resets cb v = (_, refl, reset-IsValid v)
  step-IsValid Op.forces cb v = (_, refl, force_open-IsValid v)

  pub run_from-IsValid :
      (ops : List Op) (cb : CircuitBreaker) → IsValid cb → Succeeds (run float ops cb)
  unfolding run
  run_from-IsValid [] cb v = (cb, refl, v)
  run_from-IsValid (op ∷ ops) cb v =
      let (cb', e, v') = step-IsValid op cb v in rw (e, run) (run_from-IsValid ops cb' v')

  -- A new breaker, with at most 2 ^ 32 - 1 probes, never panics in any history of critical
  -- sections: the write to its ring buffer is in range. Then total_calls is successes + failures
  -- modulo 2 ^ 32, and while half-open no more than max_requests probes are counted.
  pub run-IsValid : (c : Config) → FitsWords c → (ops : List Op) → Succeeds (run float ops (new c))
  run-IsValid c f ops = run_from-IsValid ops (new c) (new-IsValid c f)
