-- ===== src/Examples/Nested.antt =====
-- A circuit breaker around a rate limiter that refuses, at a concrete input.
use goshield_bootcamp.Middleware.Nested.{IsDue, half_open_closes_unserved}
use goshield_bootcamp.Middleware.Chain.{chain_middleware}
use goshield_bootcamp.Middleware.Guards.{circuit_breaker, rate_limit, too_many}
use goshield_bootcamp.Middleware.Http.{Handler, Http, IsHttp, Event, header, body}
use goshield_bootcamp.Breaker.Core.{CircuitBreaker, new}
use goshield_bootcamp.Breaker.Config.{default_config, state_open, state_closed}
use goshield_bootcamp.Breaker.Invariant.{FitsWords, new-IsValid}
use goshield_bootcamp.Base.Go.{Cell, GoError, rate_limit_exceeded, returned}
use goshield_bootcamp.Base.{ℕ, ◌≡◌, refl, Option, some, List, [], ◌∷◌, arith}
use goshield_bootcamp.Examples.Fixed.{fixed}

-- What a client sees, and an error without a text.
abbrev seen : List Event → ℕ
seen [] = 200
seen (header code ∷ es) = code
seen (body b ∷ es) = 200

abbrev http : Http
http = record { client_status = seen; error = λ m code. header code ∷ [] }

http-IsHttp : IsHttp http
http-IsHttp = record {
  silent = refl;
  by_header = λ code es final. refl;
  by_body = λ b es. refl;
  by_error = λ m code. ([], refl);
}

abbrev cell : Cell CircuitBreaker CircuitBreaker
cell = record { get = λ s. s; put = λ a s. a }

abbrev refuse : ℕ → CircuitBreaker → Option GoError × CircuitBreaker
refuse r s = (some rate_limit_exceeded, s)

abbrev served : Handler ℕ CircuitBreaker
served r s = record { events = body [] ∷ []; exit = returned tt s }

opened : CircuitBreaker
opened = record (new (default_config "api")) { state = state_open; open_since = 8 }

words : FitsWords (default_config "api")
unfolding default_config
words = record { requests = omega arith }

opened-IsDue : IsDue 60000000008 opened
unfolding opened new default_config
opened-IsDue = record {
  valid = ground (arith, new-IsValid (default_config "api") words);
  opened = refl;
  passed = refl;
  one_probe = refl;
  plain = refl;
}

half_open_closes_unserved_example :
    let x =
      chain_middleware
        (circuit_breaker fixed http cell (λ s. (60000000008, s)) ∷ rate_limit http refuse ∷ [])
        served
        5
        opened in
    (http.client_status x.events ≡ too_many)
    × ((s' : CircuitBreaker) × (x.exit ≡ returned tt s') × (s'.state ≡ state_closed))
half_open_closes_unserved_example =
    half_open_closes_unserved fixed http cell (λ s. (60000000008, s)) refuse http-IsHttp
      (λ a s. refl) (λ s. refl) (λ r s. refl) (λ r s. (rate_limit_exceeded, refl)) [] served 5
      opened opened-IsDue
