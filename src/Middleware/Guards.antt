-- ===== src/Middleware/Guards.antt =====
-- The middleware that lets a request through or not (pkg/middleware/middleware.go). The breaker and
-- the bulkhead run the handler on the state of the program together with the calls made so far.
use goshield_bootcamp.Resilience.Options.{with_timeout}
use goshield_bootcamp.Middleware.Recorder.{new_recorder, record_all}
use goshield_bootcamp.RateLimit.SlidingWindow.{wait}
use goshield_bootcamp.Base.Go.{
  returned, GoError, open_state, Duration, Clock, panicked, Cell, too_many_requests, Proc, Exit,
  other, Outcome, bulkhead_full, bulkhead_timeout,
}
use goshield_bootcamp.Base.Float.{Float64}
use goshield_bootcamp.Base.Int.{pos, ℤ}
use goshield_bootcamp.Breaker.Core.{CircuitBreaker}
use goshield_bootcamp.Base.{
  ℕ, Bool, true, false, Option, none, some, List, [], ◌++◌, if◌then◌else◌, leb,
}
use goshield_bootcamp.Breaker.Execute.{execute as breaker_execute}
use goshield_bootcamp.Bulkhead.Execute.{Selected, execute as bulkhead_execute}
use goshield_bootcamp.Bulkhead.Core.{Bulkhead, Config}
use goshield_bootcamp.Middleware.Http.{Event, Served, Handler, Middleware, Http}

-- `http.StatusServiceUnavailable` and `http.StatusTooManyRequests`
abbrev pub service_unavailable : ℕ
service_unavailable = 503

abbrev pub too_many : ℕ
too_many = 429

-- One handler after another on the same writer, unless the first panics.
abbrev pub followed {ℓ} : {S : Type ℓ} → Served S → (S → Served S) → Served S
followed x k = elim x.exit [
  | panicked s ↦ record { events = x.events; exit = panicked s }
  | returned u s ↦ record { events = x.events ++ (k s).events; exit = (k s).exit }
]

-- An object, the clock and a choice of the program, where the calls of the writer are kept too.
abbrev pub beside {ℓ κ} : {S : Type ℓ} {B : Type κ} → Cell S B → Cell (S × List Event) B
beside cell = record { get = λ p. cell.get p.0; put = λ b p. (cell.put b p.0, p.1) }

abbrev pub on_state {ℓ κ} :
    {S : Type ℓ} {B : Type κ} → (S → B × S) → S × List Event → B × (S × List Event)
on_state f (s, log) = let (b, s') = f s in (b, (s', log))

-- `if rec.statusCode >= 500 { return nil, fmt.Errorf(…) }`
abbrev pub server_error : ℕ → Option GoError
server_error code = if leb 500 code then some (other code) else none

module _ {ℓ κ} {R : Type ℓ} {S : Type κ} where
  -- The functions that the breaker and the bulkhead run.
  unfoldable pub serve_recorded : Handler R S → R → Proc (S × List Event) (Outcome (Unit {0}))
  unfolding record_all
  serve_recorded next r (s, log) =
      let x = next r s in
      let (rec, passed) = record_all x.events new_recorder in
      elim x.exit [
        | panicked s' ↦ panicked (s', log ++ passed)
        | returned u s' ↦ returned (none, server_error rec.status_code) (s', log ++ passed)
      ]

  unfoldable pub serve_plain : Handler R S → R → Proc (S × List Event) (Outcome (Unit {0}))
  serve_plain next r (s, log) =
      let x = next r s in
      elim x.exit [
        | panicked s' ↦ panicked (s', log ++ x.events)
        | returned u s' ↦ returned (none, none) (s', log ++ x.events)
      ]

module _ {ℓ} {S : Type ℓ} where
  -- What follows Execute: an error for which `busy` holds is answered, any other is not.
  unfoldable pub reply :
      Http → (GoError → Bool) → Exit (S × List Event) (Outcome (Unit {0})) → Served S
  reply http busy (panicked (s, log)) = record { events = log; exit = panicked s }
  reply http busy (returned (v, none) (s, log)) = record { events = log; exit = returned tt s }
  reply http busy (returned (v, some e) (s, log)) = record {
    events = if busy e then log ++ http.error "Service Unavailable" service_unavailable else log;
    exit = returned tt s;
  }

-- `err == breaker.ErrOpenState || err == breaker.ErrTooManyRequests`
abbrev pub is_breaker_busy : GoError → Bool
is_breaker_busy open_state = true
is_breaker_busy too_many_requests = true
is_breaker_busy _ = false

-- `err == bulkhead.ErrBulkheadFull || err == bulkhead.ErrBulkheadTimeout`
abbrev pub is_bulkhead_busy : GoError → Bool
is_bulkhead_busy bulkhead_full = true
is_bulkhead_busy bulkhead_timeout = true
is_bulkhead_busy _ = false

module _ {ℓ κ μ} {F : Type ℓ} (float : Float64 F) {R : Type κ} {S : Type μ} (http : Http) where
  unfoldable pub circuit_breaker : Cell S CircuitBreaker → Clock S → Middleware R S
  unfolding reply breaker_execute serve_recorded
  circuit_breaker cell clock next r s =
      reply http is_breaker_busy
        (breaker_execute float (beside cell) (on_state clock) (serve_recorded next r) (s, []))

module _ {κ μ} {R : Type κ} {S : Type μ} (http : Http) where
  -- The choice of the runtime depends on the request's context.
  unfoldable pub bulkhead : Cell S Bulkhead → (R → S → Selected × S) → Middleware R S
  unfolding reply bulkhead_execute serve_plain
  bulkhead cell select next r s =
      reply http is_bulkhead_busy
        (bulkhead_execute (beside cell) (on_state (select r)) (serve_plain next r) (s, []))

  unfoldable pub rate_limit : (R → S → Option GoError × S) → Middleware R S
  rate_limit wait next r s =
      let (err, s') = wait r s in
      elim err [
        | some e ↦ record {
          events = http.error "Too Many Requests" too_many;
          exit = returned tt s';
        }
        | none ↦ next r s'
      ]

module _ {κ μ} {R : Type κ} {S : Type μ} where
  unfoldable pub rate_limit_with_response :
      (R → S → Option GoError × S) → Handler R S → Middleware R S
  rate_limit_with_response wait response next r s =
      let (err, s') = wait r s in elim err [ some e ↦ response r s' | none ↦ next r s' ]

  -- `with_timeout` is the request with a context that ends after the duration.
  unfoldable pub timeout : (Duration → R → R) → Duration → Middleware R S
  timeout with_timeout duration next r s = next (with_timeout duration r) s

  -- `race` runs the handler in a goroutine until it is through or its context has ended, and says
  -- which. What the goroutine does later is not part of the answer.
  unfoldable pub timeout_with_response :
      (Duration → R → R)
      → (Handler R S → R → S → Bool × Served S)
      → Duration
      → Handler R S
      → Middleware R S
  timeout_with_response with_timeout race duration response next r s =
      let (through, x) = race next (with_timeout duration r) s in
      if through then x else followed x (response r)

-- `ConcurrencyLimit` is the bulkhead with this configuration.
unfoldable pub concurrency_limit : ℤ → Config
concurrency_limit max_concurrent = record {
  max_concurrent = max_concurrent;
  max_wait_duration = pos 0;
  on_call_rejected = false;
}
