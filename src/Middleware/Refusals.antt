-- ===== src/Middleware/Refusals.antt =====
-- What the middleware answers when a pattern refuses a request, and what it leaves behind
-- (pkg/middleware/middleware.go).
use goshield_bootcamp.Middleware.Recorder.{record_all, record_all-client_status, new_recorder}
use goshield_bootcamp.Bulkhead.Core.{Bulkhead}
use goshield_bootcamp.Middleware.Guards.{
  server_error, serve_recorded, serve_plain, is_bulkhead_busy, is_breaker_busy, circuit_breaker,
  beside, on_state, bulkhead, reply, service_unavailable,
}
use goshield_bootcamp.Base.Go.{
  is_err, Exit, GoError, panicked, returned, IsCell, forced_open, Clock, Cell, Outcome,
}
use goshield_bootcamp.Base.Float.{Float64}
use goshield_bootcamp.Breaker.Core.{CircuitBreaker, before_call}
use goshield_bootcamp.Breaker.Config.{state_forced_open}
use goshield_bootcamp.Breaker.Calls.{reject}
use goshield_bootcamp.Base.{
  Option, leb, ℕ, All, ◌≡◌, refl, ap, ◌∙◌, Bool, none, some, List, [], arith, if◌then◌else◌,
}
use goshield_bootcamp.Breaker.Execute.{execute as breaker_execute}
use goshield_bootcamp.Bulkhead.Execute.{
  end_of, slots, execute-IsBalanced, Selected, execute as bulkhead_execute,
}
use goshield_bootcamp.Middleware.Http.{IsFinal, Event, Served, Handler, Http, IsHttp}

module _ {ℓ κ μ} {F : Type ℓ} (float : Float64 F) {R : Type κ} {S : Type μ} (http : Http)
    (cell : Cell S CircuitBreaker) (clock : Clock S) where
  -- A request that the breaker refuses is answered by http.Error with status 503 if the error is
  -- ErrOpenState or ErrTooManyRequests, and not at all if it is another; whatever the handler is,
  -- it is not run.
  pub circuit_breaker_refused :
      (r : R) (s : S) (e : GoError)
      → (before_call (clock s).0 (cell.get (clock s).1)).0 ≡ some e
      → (s' : S) × ((next : Handler R S)
          → circuit_breaker float http cell clock next r s ≡ record {
            events =
                if is_breaker_busy e
                then http.error "Service Unavailable" service_unavailable
                else [];
            exit = returned tt s';
          })
  unfolding circuit_breaker reply
  circuit_breaker_refused r s e h =
      let s₂ = cell.put (before_call (clock s).0 (cell.get (clock s).1)).1 (clock s).1 in
      (cell.put (reject (cell.get s₂)) s₂, λ next. rw (h, breaker_execute) refl)

  -- A breaker that is forced open leaves a request without an answer, so that the client sees an
  -- empty response with status 200; whatever the handler is, it is not run.
  pub forced_open_unanswered :
      IsHttp http
      → (r : R) (s : S) → (cell.get (clock s).1).state ≡ state_forced_open
      → (s' : S) × ((next : Handler R S)
          → circuit_breaker float http cell clock next r s
            ≡ record { events = []; exit = returned tt s' })
        × ((next : Handler R S)
            → http.client_status (circuit_breaker float http cell clock next r s).events ≡ 200)
  unfolding before_call
  forced_open_unanswered h r s e =
      let (s', f) = circuit_breaker_refused r s forced_open (ground arith) in
      (s', f, λ next. ap (λ (x : Served S). http.client_status x.events) (f next) ∙ h.silent)

server_error-leb : (n : ℕ) → is_err (server_error n) ≡ leb 500 n
server_error-leb n = ground arith

module _ {κ μ} {R : Type κ} {S : Type μ} (http : Http) where
  -- What the breaker is told of a request is what the client sees: if the handler returns and its
  -- headers are final, the function that the breaker runs returns an error exactly if the client is
  -- answered with a status of 500 or more.
  pub serve_recorded_tells :
      IsHttp http
      → (next : Handler R S) (r : R) (s s' : S) → All IsFinal (next r s).events
      → (next r s).exit ≡ returned tt s'
      → (told : Option GoError) × (passed : List Event) × (serve_recorded next r (s, [])
          ≡ returned (none, told) (s', passed))
        × (is_err told ≡ leb 500 (http.client_status (next r s).events))
        × (http.client_status passed ≡ http.client_status (next r s).events)
  unfolding serve_recorded
  serve_recorded_tells h next r s s' f e =
      let (rec, passed) = record_all (next r s).events new_recorder in
      let same = record_all-client_status http h (next r s).events f in
      (
        server_error rec.status_code,
        passed,
        rw (e, serve_recorded),
        server_error-leb rec.status_code ∙ ap (leb 500) same.0,
        same.1,
      )

module _ {κ μ} {R : Type κ} {S : Type μ} (http : Http) (cell : Cell S Bulkhead)
    (select : R → S → Selected × S) where
  reply-end :
      (busy : GoError → Bool) (x : Exit (S × List Event) (Outcome (Unit {0})))
      → end_of (reply http busy x).exit ≡ (end_of x).0
  unfolding reply
  reply-end busy (panicked (s, log)) = refl
  reply-end busy (returned (v, none) (s, log)) = refl
  reply-end busy (returned (v, some e) (s, log)) = refl

  serve_plain-end :
      (next : Handler R S) (r : R) (p : S × List Event)
      → (end_of (serve_plain next r p)).0 ≡ end_of (next r p.0).exit
  unfolding serve_plain
  serve_plain-end next r (s, log) = ground arith

  -- A handler and a runtime that give back every slot that they take: then so does the bulkhead
  -- around the handler, when the request is refused, when the handler returns, and when it panics.
  pub bulkhead-IsBalanced :
      IsCell cell
      → ((r : R) (s : S) → slots cell (select r) (select r s).1 ≡ slots cell (select r) s)
      → (next : Handler R S)
      → ((r : R) (s : S) → slots cell (select r) (end_of (next r s).exit) ≡ slots cell (select r) s)
      → (r : R) (s : S)
      → slots cell (select r) (end_of (bulkhead http cell select next r s).exit)
        ≡ slots cell (select r) s
  unfolding bulkhead
  bulkhead-IsBalanced lens sel next b r s =
      rw
        (reply-end is_bulkhead_busy
          (bulkhead_execute (beside cell) (on_state (select r)) (serve_plain next r) (s, [])))
        (execute-IsBalanced (beside cell) (on_state (select r)) (λ a p. lens a p.0) (λ p. sel r p.0)
          (serve_plain next r)
          (λ p. ap (slots cell (select r)) (serve_plain-end next r p) ∙ b r p.0) (s, []))
