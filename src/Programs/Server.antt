-- ===== src/Programs/Server.antt =====
-- The example of the HTTP middleware (examples/http/main.go). The mux of net/http and the Wait of
-- the limiter in its cell are parameters; a handler's text is its bytes.
use goshield_bootcamp.Programs.Literals.{no_breaker_config, bulkhead_literal}
use goshield_bootcamp.Middleware.Chain.{chain_middleware}
use goshield_bootcamp.Middleware.Guards.{circuit_breaker, rate_limit, timeout, bulkhead}
use goshield_bootcamp.Middleware.Http.{Handler, Http, body}
use goshield_bootcamp.Bulkhead.Core.{Bulkhead, new as new_bulkhead}
use goshield_bootcamp.Bulkhead.Execute.{Selected}
use goshield_bootcamp.Breaker.Config.{Config as BreakerConfig, seconds}
use goshield_bootcamp.Breaker.Core.{CircuitBreaker, new as new_breaker}
use goshield_bootcamp.RateLimit.TokenBucket.{TokenBucket, new_token_bucket}
use goshield_bootcamp.Base.Go.{Cell, Clock, Duration, GoError, returned}
use goshield_bootcamp.Base.Float.{Float64}
use goshield_bootcamp.Base.Int.{pos}
use goshield_bootcamp.Base.{ℕ, true, Option, List, [], ◌∷◌}
use Prim.Native.String.{String}

-- `log.Printf` of the callback is a goroutine, kept in the breaker's trace.
abbrev pub api_breaker : BreakerConfig
api_breaker = record no_breaker_config {
  name = "api-cb";
  failure_rate_threshold = 50;
  minimum_number_of_calls = 5;
  sliding_window_size = 10;
  timeout = seconds 30;
  on_state_change = true;
}

module _ {ℓ μ} {F : Type ℓ} (float : Float64 F) {S : Type μ} (clock : Clock S)
    (breaker : Cell S CircuitBreaker) (limiter : Cell S (TokenBucket F))
    (slots : Cell S Bulkhead) where
  -- The objects that the program makes, in the order in which it makes them.
  unfoldable pub make_objects : S → S
  unfolding new_token_bucket new_breaker new_bulkhead
  make_objects s =
      let (now, s₁) = clock s in
      let s₂ = limiter.put (new_token_bucket float now (float.of_uint 100) (pos 200)) s₁ in
      slots.put (new_bulkhead (bulkhead_literal (pos 50) (seconds 5)))
        (breaker.put (new_breaker api_breaker) s₂)

module _ {κ μ} {R : Type κ} {S : Type μ} where
  -- A handler that writes a text, and does nothing else.
  abbrev pub write_text : (String → List ℕ) → String → Handler R S
  write_text bytes t r s = record { events = body (bytes t) ∷ []; exit = returned tt s }

  abbrev pub routes : (String → List ℕ) → List (String × Handler R S)
  routes bytes =
      ("/", write_text bytes "Hello, World!")
      ∷ ("/api/data", write_text bytes "{\"data\": \"some value\"}")
      ∷ []

module _ {ℓ κ μ} {F : Type ℓ} (float : Float64 F) {R : Type κ} {S : Type μ} (http : Http)
    (clock : Clock S) (breaker : Cell S CircuitBreaker) (slots : Cell S Bulkhead) where
  unfoldable pub server_handler :
      (List (String × Handler R S) → Handler R S)
      → (String → List ℕ)
      → (R → S → Option GoError × S)
      → (Duration → R → R)
      → (R → S → Selected × S)
      → Handler R S
  unfolding chain_middleware circuit_breaker rate_limit timeout bulkhead
  server_handler mux bytes wait with_timeout select =
      chain_middleware
        (circuit_breaker float http breaker clock
          ∷ rate_limit http wait
          ∷ timeout with_timeout (seconds 10)
          ∷ bulkhead http slots select
          ∷ [])
        (mux (routes bytes))
