-- ===== src/Middleware/Nested.antt =====
-- A circuit breaker around a rate limiter (pkg/middleware/middleware.go), as in the chain of
-- examples/http/main.go: what the breaker makes of the limiter's refusals.
use goshield_bootcamp.Middleware.Chain.{chain_middleware}
use goshield_bootcamp.Resilience.Chain.{chain, chain_order}
use goshield_bootcamp.Middleware.Guards.{
  circuit_breaker, rate_limit, server_error, serve_recorded, reply, beside, on_state, too_many,
}
use goshield_bootcamp.Middleware.Http.{Handler, Middleware, Http, IsHttp, header, Event, Served}
use goshield_bootcamp.Middleware.Recorder.{record_all, record_all-written}
use goshield_bootcamp.Breaker.Core.{
  CircuitBreaker, before_call, get_state_unsafe, record_result, check_half_open_success,
}
use goshield_bootcamp.Breaker.Calls.{after_call, count_totals, settle, is_slow}
use goshield_bootcamp.Breaker.Config.{state_open, state_closed, state_half_open}
use goshield_bootcamp.Breaker.Invariant.{
  IsValid, length-make_ring, record_result-IsValid, count_totals-IsValid,
}
use goshield_bootcamp.Breaker.Execute.{execute as breaker_execute, call, finish}
use goshield_bootcamp.Base.Go.{Time, Duration, Clock, inc32, Cell, IsCell, GoError, since, returned}
use goshield_bootcamp.Base.Float.{Float64}
use goshield_bootcamp.Base.Int.{leb_ℤ}
use goshield_bootcamp.Base.{
  ℕ, ◌≡◌, refl, ap, ◌∙◌, Bool, true, false, Option, none, some, List, [], ◌∷◌, arith,
}

-- An open breaker with one probe, whose timeout has passed at the reading `now`.
pub record IsDue (now : Time) (cb : CircuitBreaker) : Type 0 where
  pub valid : IsValid cb
  pub opened : cb.state ≡ state_open
  pub passed : leb_ℤ cb.config.timeout (since now cb.open_since) ≡ true
  pub one_probe : cb.config.max_requests ≡ 1
  pub plain : cb.config.is_successful ≡ none

-- A probe under way.
record IsProbing (cb : CircuitBreaker) : Type 0 where
  valid : IsValid cb
  half_open : cb.state ≡ state_half_open
  none_yet : cb.total_calls ≡ 0
  one_allowed : cb.half_open_allowed ≡ 1
  plain : cb.config.is_successful ≡ none

before_call-IsProbing :
    (now : Time) (cb : CircuitBreaker)
    → IsDue now cb
    → ((before_call now cb).0 ≡ none) × IsProbing (before_call now cb).1
unfolding before_call
before_call-IsProbing now cb d = (ground arith, ground (arith, length-make_ring cb.config))

check_half_open_success-closes :
    (now : Time) (cb : CircuitBreaker)
    → cb.total_calls ≡ 1
    → cb.half_open_allowed ≡ 1
    → (check_half_open_success now cb).state ≡ state_closed
unfolding check_half_open_success
check_half_open_success-closes now cb h k = ground arith

record_result-counts :
    (now : Time) (failed slow : Bool) (cb cb' : CircuitBreaker)
    → record_result now failed slow cb ≡ some cb'
    → (cb'.total_calls ≡ inc32 cb.total_calls) × (cb'.half_open_allowed ≡ cb.half_open_allowed)
unfolding record_result
record_result-counts now failed slow cb cb' e = ground arith

count_totals-IsProbing :
    (failed slow : Bool) (cb : CircuitBreaker)
    → IsProbing cb
    → IsProbing (count_totals failed slow cb)
unfolding count_totals
count_totals-IsProbing failed slow cb p =
    let v = count_totals-IsValid failed slow p.valid in ground arith

-- A probe that succeeds closes the breaker.
after_call-closes {ℓ} :
    {F : Type ℓ} (float : Float64 F) (now : Time) (d : Duration) (cb : CircuitBreaker)
    → IsProbing cb
    → (cb' : CircuitBreaker) × (after_call float now none d cb ≡ some cb')
      × (cb'.state ≡ state_closed)
unfolding after_call get_state_unsafe settle
after_call-closes float now d cb p =
    let slow = is_slow cb.config d in
    let q = count_totals-IsProbing false slow cb p in
    let (cb₁, e, _) = record_result-IsValid now false slow (count_totals false slow cb) q.valid in
    let (n, a) = record_result-counts now false slow (count_totals false slow cb) cb₁ e in
    (
      check_half_open_success now cb₁,
      ground arith,
      check_half_open_success-closes now cb₁ (ground arith) (ground arith),
    )

-- What the breaker is told of a handler that begins with a header.
serve_recorded-header {κ μ} :
    {R : Type κ} {S : Type μ} (next : Handler R S) (r : R) (s s' : S) (code : ℕ) (es : List Event)
    → next r s ≡ record { events = header code ∷ es; exit = returned tt s' }
    → serve_recorded next r (s, [])
      ≡ returned
          (none, server_error code)
          (s', header code ∷ (record_all es (record { status_code = code; written = true })).1)
unfolding serve_recorded record_all
serve_recorded-header {S} next r s s' code es p =
    let exits = ap (λ (x : Served S). x.exit) p in
    let written' = ap (λ (x : Served S). x.events) p in
    rw (exits, serve_recorded) (rw (written') (rw (record_all-written es code) refl))

module _ {κ μ} {R : Type κ} {S : Type μ} (http : Http) (wait : R → S → Option GoError × S) where
  -- A refusal of the limiter is a success to the breaker.
  serve_recorded-limited :
      IsHttp http
      → (inner : Handler R S) (r : R) (s : S) (e : GoError) → (wait r s).0 ≡ some e
      → (passed : List Event) × (serve_recorded (rate_limit http wait inner) r (s, [])
          ≡ returned (none, none) ((wait r s).1, passed))
        × (http.client_status passed ≡ too_many)
  unfolding rate_limit
  serve_recorded-limited h inner r s e refused =
      let (es, q) = h.by_error "Too Many Requests" too_many in
      let served : rate_limit http wait inner r s
          ≡ record { events = header too_many ∷ es; exit = returned tt (wait r s).1 } =
        rw (refused, rate_limit) (rw (q) refl) in
      let passed = (record_all es (record { status_code = too_many; written = true })).1 in
      (
        header too_many ∷ passed,
        serve_recorded-header (rate_limit http wait inner) r s (wait r s).1 too_many es served,
        h.by_header too_many passed (omega arith),
      )

module _ {μ} {S : Type μ} (cell : Cell S CircuitBreaker) (clock : Clock S) where
  -- The clock leaves the breaker as it is.
  abbrev pub IsApart : Type μ
  IsApart = (s : S) → cell.get (clock s).1 ≡ cell.get s

  finish-closes {ℓ} :
      {F : Type ℓ} (float : Float64 F)
      → IsCell cell
      → IsApart
      → (began : Time) (u : Option (Unit {0})) (s : S) (log : List Event) → IsProbing (cell.get s)
      → (s' : S) × (finish float (beside cell) (on_state clock) began (u, none) (s, log)
          ≡ returned (u, none) (s', log))
        × ((cell.get s').state ≡ state_closed)
  unfolding finish
  finish-closes float lens apart began u s log p =
      let s₁ = (clock s).1 in
      let s₂ = (clock s₁).1 in
      let same = apart s₁ ∙ apart s in
      let (cb, e, closed) =
        after_call-closes float (clock s₁).0 (since (clock s).0 began) (cell.get s₂) (rw same p) in
      (cell.put cb s₂, rw (e, finish) refl, ap (λ b. b.state) (lens cb s₂) ∙ closed)

module _ {ℓ κ μ} {F : Type ℓ} (float : Float64 F) {R : Type κ} {S : Type μ} (http : Http)
    (cell : Cell S CircuitBreaker) (clock : Clock S) (wait : R → S → Option GoError × S) where
  call-closes :
      IsHttp http
      → IsCell cell
      → IsApart cell clock
      → ((r : R) (s : S) → cell.get (wait r s).1 ≡ cell.get s)
      → (inner : Handler R S) (r : R) (s : S) (e : GoError) → (wait r (clock s).1).0 ≡ some e
      → IsProbing (cell.get s)
      → (passed : List Event) × (s' : S) × (call float
            (beside cell)
            (on_state clock)
            (serve_recorded (rate_limit http wait inner) r)
            (s, [])
          ≡ returned (none, none) (s', passed))
        × (http.client_status passed ≡ too_many)
        × ((cell.get s').state ≡ state_closed)
  unfolding call
  call-closes h lens apart aside inner r s e refused p =
      let s₁ = (clock s).1 in
      let (passed, q, seen) = serve_recorded-limited http wait h inner r s₁ e refused in
      let (s', q', closed) =
        finish-closes cell clock float lens apart (clock s).0 none (wait r s₁).1 passed
          (rw (aside r s₁ ∙ apart s) p) in
      (passed, s', rw (q, call) q', seen, closed)

  -- A breaker around a limiter that refuses, where the clock and the limiter leave the breaker as
  -- it is: if the breaker is valid, counts errors, has one probe and is open with its timeout
  -- passed, then the next request closes it, whatever handler and middleware stand behind the
  -- limiter and although none of them is run; the client sees status 429.
  pub half_open_closes_unserved :
      IsHttp http
      → IsCell cell
      → IsApart cell clock
      → ((r : R) (s : S) → cell.get (wait r s).1 ≡ cell.get s)
      → ((r : R) (s : S) → (e : GoError) × ((wait r s).0 ≡ some e))
      → (rest : List (Middleware R S)) (next : Handler R S) (r : R) (s : S)
      → IsDue (clock s).0 (cell.get s)
      → let served =
          chain_middleware
            (circuit_breaker float http cell clock ∷ rate_limit http wait ∷ rest)
            next
            r
            s in
        (http.client_status served.events ≡ too_many)
        × ((s' : S) × (served.exit ≡ returned tt s') × ((cell.get s').state ≡ state_closed))
  unfolding chain_middleware circuit_breaker reply breaker_execute
  half_open_closes_unserved h lens apart aside refuses rest next r s due =
      let s₁ = (clock s).1 in
      let (admitted, probing) =
        before_call-IsProbing (clock s).0 (cell.get s₁) (rw (apart s) due) in
      let s₂ = cell.put (before_call (clock s).0 (cell.get s₁)).1 s₁ in
      let (e, refused) = refuses r (clock s₂).1 in
      let (passed, s', q, seen, closed) =
        call-closes h lens apart aside (chain rest next) r s₂ e refused (rw (lens _ s₁) probing) in
      rw
        (
          (chain_order (circuit_breaker float http cell clock) (rate_limit http wait ∷ rest) []
              next).0,
          (chain_order (rate_limit http wait) rest [] next).0,
        )
        (rw (admitted, breaker_execute) (rw (q) (seen, (s', refl, closed))))
