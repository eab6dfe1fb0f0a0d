-- ===== src/Breaker/Recovery.antt =====
-- How an open circuit breaker closes again (internal/breaker/breaker.go).
use goshield_bootcamp.Breaker.Config.{state_open, state_half_open, state_closed}
use goshield_bootcamp.Breaker.Core.{
  CircuitBreaker, before_call, get_state_unsafe, check_half_open_success, record_result,
  transition_to,
}
use goshield_bootcamp.Breaker.Calls.{after_call, count_totals, settle, is_slow}
use goshield_bootcamp.Breaker.Trace.{Op, run, answers, step}
use goshield_bootcamp.Breaker.Invariant.{
  IsValid, length-make_ring, record_result-IsValid, count_totals-IsValid, before_call-IsValid,
}
use goshield_bootcamp.Base.Go.{Time, Duration, since}
use goshield_bootcamp.Base.Float.{Float64}
use goshield_bootcamp.Base.Int.{leb_ℤ}
use goshield_bootcamp.Base.{
  ℕ, suc, ◌+◌, ◌<◌, ◌≡◌, refl, ◌∙◌, ap, Bool, true, false, none, some, List, [], ◌∷◌, length,
  replicate, arith,
}

-- A call that succeeds, with the readings of the clock and its duration.
pub record Probe : Type 0 where
  pub begun : Time
  pub ended : Time
  pub lasted : Duration

-- One after the other.
abbrev pub probes : List Probe → List Op
probes [] = []
probes (x ∷ xs) = Op.before x.begun ∷ Op.after x.ended none x.lasted ∷ probes xs

-- Half open, when `n` probes have succeeded of the `k` that were admitted, and `m` are wanted.
record IsProbing (n k m : ℕ) (cb : CircuitBreaker) : Type 0 where
  valid : IsValid cb
  half_open : cb.state ≡ state_half_open
  counted : cb.total_calls ≡ n
  admitted : cb.half_open_count ≡ k
  requests : cb.config.max_requests ≡ m
  plain : cb.config.is_successful ≡ none

-- Closed, with an empty window.
pub record IsClosed (cb : CircuitBreaker) : Type 0 where
  pub closed : cb.state ≡ state_closed
  pub empty : cb.total_calls ≡ 0
  pub no_failures : cb.failures ≡ 0

before_call-IsProbing :
    (n k m : ℕ) (now : Time) (cb : CircuitBreaker)
    → IsProbing n k m cb
    → k < m
    → ((before_call now cb).0 ≡ none) × IsProbing n (k + 1) m (before_call now cb).1
unfolding before_call
before_call-IsProbing n k m now cb p h =
    let v = p.valid in
    let w = before_call-IsValid now cb v in
    (ground (arith, v.allowed), ground (arith, v.allowed, v.requests))

before_call-due :
    (now : Time) (cb : CircuitBreaker)
    → IsValid cb
    → cb.state ≡ state_open
    → cb.config.is_successful ≡ none
    → leb_ℤ cb.config.timeout (since now cb.open_since) ≡ true
    → ((before_call now cb).0 ≡ none) × IsProbing 0 1 cb.config.max_requests (before_call now cb).1
unfolding before_call
before_call-due now cb v o k h =
    let w = before_call-IsValid now cb v in
    (ground arith, ground (arith, length-make_ring cb.config))

record_result-IsProbing :
    (n k m : ℕ) (now : Time) (slow : Bool) (cb : CircuitBreaker)
    → IsProbing n k m cb
    → n < m
    → (cb' : CircuitBreaker) × (record_result now false slow cb ≡ some cb')
      × IsProbing (n + 1) k m cb'
unfolding record_result
record_result-IsProbing n k m now slow cb p h =
    let v = p.valid in
    let (cb', e, w) = record_result-IsValid now false slow cb v in
    (cb', e, ground (arith, v.requests))

count_totals-IsProbing :
    (n k m : ℕ) (failed slow : Bool) (cb : CircuitBreaker)
    → IsProbing n k m cb
    → IsProbing n k m (count_totals failed slow cb)
unfolding count_totals
count_totals-IsProbing n k m failed slow cb p =
    let v = count_totals-IsValid failed slow p.valid in ground arith

check_half_open_success-early :
    (n k m : ℕ) (now : Time) (cb : CircuitBreaker)
    → IsProbing n k m cb
    → n < m
    → check_half_open_success now cb ≡ cb
unfolding check_half_open_success
check_half_open_success-early n k m now cb p h =
    let v = p.valid in ground (arith, v.allowed p.half_open)

check_half_open_success-IsClosed :
    (n k : ℕ) (now : Time) (cb : CircuitBreaker)
    → IsProbing n k n cb
    → IsClosed (check_half_open_success now cb)
unfolding check_half_open_success transition_to
check_half_open_success-IsClosed n k now cb p =
    let v = p.valid in ground (arith, v.allowed p.half_open)

module _ {ℓ} {F : Type ℓ} (float : Float64 F) where
  -- A probe that succeeds.
  after_call-probe :
      (n k m : ℕ) (now : Time) (d : Duration) (cb : CircuitBreaker)
      → IsProbing n k m cb
      → n < m
      → (cb' : CircuitBreaker) × IsProbing (n + 1) k m cb'
        × (after_call float now none d cb ≡ some (check_half_open_success now cb'))
  unfolding after_call get_state_unsafe settle
  after_call-probe n k m now d cb p h =
      let slow = is_slow cb.config d in
      let q = count_totals-IsProbing n k m false slow cb p in
      let (cb', e, r) = record_result-IsProbing n k m now slow (count_totals false slow cb) q h in
      (cb', r, ground arith)

  run-probe :
      (x : Probe) (xs : List Probe) (cb cb' : CircuitBreaker)
      → (before_call x.begun cb).0 ≡ none
      → after_call float x.ended none x.lasted (before_call x.begun cb).1 ≡ some cb'
      → (run float (probes (x ∷ xs)) cb ≡ run float (probes xs) cb')
        × (answers float (probes (x ∷ xs)) cb ≡ none ∷ answers float (probes xs) cb')
  unfolding run answers step
  run-probe x xs cb cb' p q = (ground arith, ground arith)

  -- The history is admitted whole and ends in a breaker that is closed.
  abbrev Closes : List Probe → CircuitBreaker → Type 0
  Closes xs cb =
      (cb' : CircuitBreaker) × (run float (probes xs) cb ≡ some cb')
      × (answers float (probes xs) cb ≡ replicate (length xs) none)
      × IsClosed cb'

  Closes-cons :
      (x : Probe) (xs : List Probe) (cb cb' : CircuitBreaker)
      → (before_call x.begun cb).0 ≡ none
      → after_call float x.ended none x.lasted (before_call x.begun cb).1 ≡ some cb'
      → Closes xs cb'
      → Closes (x ∷ xs) cb
  Closes-cons x xs cb cb' p q (last, r, a, c) =
      let (r', a') = run-probe x xs cb cb' p q in (last, r' ∙ r, a' ∙ ap (λ rest. none ∷ rest) a, c)

  Closes-nil : (cb : CircuitBreaker) → IsClosed cb → Closes [] cb
  unfolding run answers
  Closes-nil cb c = (cb, refl, refl, c)

  -- From the first call, of a probe that has been admitted.
  admitted-Closes :
      (n m : ℕ) (x : Probe) (xs : List Probe) (cb : CircuitBreaker)
      → (before_call x.begun cb).0 ≡ none
      → IsProbing n (n + 1) m (before_call x.begun cb).1
      → n + 1 + length xs ≡ m
      → Closes (x ∷ xs) cb
  admitted-Closes n m x [] cb free p h =
      let (cb₁, q, e) =
        after_call-probe n (n + 1) m x.ended x.lasted (before_call x.begun cb).1 p (omega arith) in
      let last = check_half_open_success x.ended cb₁ in
      Closes-cons x [] cb last free e
        (Closes-nil last (check_half_open_success-IsClosed m (n + 1) x.ended cb₁ (ground arith)))
  admitted-Closes n m x (y ∷ ys) cb free p h =
      let (cb₁, q, e) =
        after_call-probe n (n + 1) m x.ended x.lasted (before_call x.begun cb).1 p (omega arith) in
      let (free', q') = before_call-IsProbing (n + 1) (n + 1) m y.begun cb₁ q (omega arith) in
      Closes-cons x (y ∷ ys) cb cb₁ free
        (e ∙ ap some (check_half_open_success-early (n + 1) (n + 1) m x.ended cb₁ q (omega arith)))
        (admitted-Closes (n + 1) m y ys cb₁ free' q' (omega arith))

  -- A valid breaker that is open, and that counts errors: if its timeout has passed when the first
  -- of some calls begins, and these are as many as its maximum of requests, all succeed and come
  -- one after the other, then all of them are admitted, and the last closes the breaker, with no
  -- call in its window.
  pub closes_after_probes :
      (cb : CircuitBreaker)
      → IsValid cb
      → cb.state ≡ state_open
      → cb.config.is_successful ≡ none
      → (x : Probe) (xs : List Probe) → leb_ℤ cb.config.timeout (since x.begun cb.open_since) ≡ true
      → 1 + length xs ≡ cb.config.max_requests
      → (cb' : CircuitBreaker) × (run float (probes (x ∷ xs)) cb ≡ some cb')
        × (answers float (probes (x ∷ xs)) cb ≡ replicate (suc (length xs)) none)
        × IsClosed cb'
  closes_after_probes cb v o k x xs due h =
      let (free, p) = before_call-due x.begun cb v o k due in
      admitted-Closes 0 cb.config.max_requests x xs cb free p h
