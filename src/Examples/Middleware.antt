-- ===== src/Examples/Middleware.antt =====
-- The middleware at concrete inputs.
use goshield_bootcamp.Middleware.Http.{header, IsHttp, body, Handler, Http, Event}
use goshield_bootcamp.Middleware.Refusals.{serve_recorded_tells, forced_open_unanswered}
use goshield_bootcamp.Middleware.Chain.{chain_middleware, client_status-retry_chain}
use goshield_bootcamp.Base.Go.{is_err, GoError, Cell, panicked, returned}
use goshield_bootcamp.Base.Int.{pos}
use goshield_bootcamp.Resilience.Chain.{wrap_loop, chain}
use goshield_bootcamp.Breaker.Calls.{force_open}
use goshield_bootcamp.Base.{
  leb, arith, ℕ, ◌+◌, ◌≡◌, refl, Option, none, List, [], ◌∷◌, if◌then◌else◌, ◌==◌,
}
use goshield_bootcamp.Middleware.Guards.{serve_recorded, circuit_breaker, rate_limit}
use goshield_bootcamp.Middleware.Retry.{retry}
use goshield_bootcamp.Bulkhead.Core.{Bulkhead}
use goshield_bootcamp.Bulkhead.Execute.{sent, Selected}
use goshield_bootcamp.Breaker.Core.{CircuitBreaker, new}
use goshield_bootcamp.Breaker.Config.{default_config}
use goshield_bootcamp.Examples.Fixed.{fixed}

-- What a client sees, and an error without a text.
abbrev seen : List Event → ℕ
seen [] = 200
seen (header code ∷ es) = code
seen (body b ∷ es) = 200

abbrev http : Http
http = record { client_status = seen; error = λ m code. header code ∷ body [] ∷ [] }

http-IsHttp : IsHttp http
http-IsHttp = record {
  silent = refl;
  by_header = λ code es final. refl;
  by_body = λ b es. refl;
  by_error = λ m code. (body [] ∷ [], refl);
}

-- The state counts the requests that get through; the second is served.
abbrev flaky : Handler ℕ ℕ
flaky r s = record {
  events = if s == 0 then header 502 ∷ [] else header 204 ∷ [];
  exit = returned tt (s + 1);
}

abbrev let_through : ℕ → ℕ → Option GoError × ℕ
let_through r s = (none, s)

client_status-retry_chain_example :
    http.client_status
      (chain_middleware
        (retry http (λ d s. s) (pos 2) (pos 7) ∷ rate_limit http let_through ∷ [])
        flaky
        5
        0).events
    ≡ http.client_status (chain_middleware (rate_limit http let_through ∷ []) flaky 5 0).events
unfolding chain_middleware chain wrap_loop rate_limit
client_status-retry_chain_example =
    client_status-retry_chain http (λ d s. s) http-IsHttp 2 (pos 7)
      (rate_limit http let_through ∷ []) flaky 5 0 1 (omega arith, tt) refl

abbrev breaker_cell : Cell CircuitBreaker CircuitBreaker
breaker_cell = record { get = λ s. s; put = λ a s. a }

forced : CircuitBreaker
forced = force_open (new (default_config "api"))

forced_open_unanswered_example :
    (s' : CircuitBreaker) × ((next : Handler ℕ CircuitBreaker)
      → circuit_breaker fixed http breaker_cell (λ s. (9, s)) next 5 forced
        ≡ record { events = []; exit = returned tt s' })
    × ((next : Handler ℕ CircuitBreaker)
        → http.client_status
            (circuit_breaker fixed http breaker_cell (λ s. (9, s)) next 5 forced).events
          ≡ 200)
unfolding forced force_open new default_config
forced_open_unanswered_example =
    forced_open_unanswered fixed http breaker_cell (λ s. (9, s)) http-IsHttp 5 forced refl

abbrev bulkhead_cell : Cell Bulkhead Bulkhead
bulkhead_cell = record { get = λ s. s; put = λ a s. a }

abbrev always_sent : ℕ → Bulkhead → Selected × Bulkhead
always_sent r b = (sent, b)

abbrev panics : Handler ℕ Bulkhead
panics r s = record { events = []; exit = panicked s }

serve_recorded_tells_example :
    (told : Option GoError) × (passed : List Event) × (serve_recorded flaky 5 (0, [])
      ≡ returned (none, told) (1, passed))
    × (is_err told ≡ leb 500 (http.client_status (flaky 5 0).events))
    × (http.client_status passed ≡ http.client_status (flaky 5 0).events)
serve_recorded_tells_example =
    serve_recorded_tells http http-IsHttp flaky 5 0 1 (omega arith, tt) refl
