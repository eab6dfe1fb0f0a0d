-- ===== src/Examples/Recovery.antt =====
-- How an open circuit breaker closes again, and the burst of a token bucket, at concrete inputs.
use goshield_bootcamp.Breaker.Recovery.{Probe, IsClosed, probes, closes_after_probes}
use goshield_bootcamp.Base.Go.{Cell, Clock, Proc, Outcome, panicked}
use goshield_bootcamp.Breaker.Core.{CircuitBreaker, new}
use goshield_bootcamp.Breaker.Config.{Config, default_config, state_open}
use goshield_bootcamp.Breaker.Invariant.{FitsWords, IsValid, new-IsValid}
use goshield_bootcamp.Breaker.Trace.{run, answers}
use goshield_bootcamp.RateLimit.Burst.{IsWhole, burst_of, burst_of-new_token_bucket}
use goshield_bootcamp.RateLimit.TokenBucket.{new_token_bucket}
use goshield_bootcamp.Base.Int.{pos}
use goshield_bootcamp.Base.{ℕ, ◌≡◌, refl, true, false, none, some, [], ◌∷◌, replicate, arith}
use goshield_bootcamp.Examples.Fixed.{fixed}

-- Two probes are wanted.
abbrev config : Config
config = record (default_config "api") { max_requests = 2 }

abbrev opened : CircuitBreaker
opened = record (new config) { state = state_open; open_since = 8 }

config-FitsWords : FitsWords config
unfolding default_config
config-FitsWords = record { requests = omega arith }

opened-IsValid : IsValid opened
unfolding new default_config
opened-IsValid = ground (arith, new-IsValid config config-FitsWords)

abbrev first : Probe
first = record { begun = 60000000008; ended = 60000000009; lasted = pos 1 }

abbrev second : Probe
second = record { begun = 60000000010; ended = 60000000012; lasted = pos 2 }

closes_after_probes_example :
    (cb : CircuitBreaker) × (run fixed (probes (first ∷ second ∷ [])) opened ≡ some cb)
    × (answers fixed (probes (first ∷ second ∷ [])) opened ≡ replicate 2 none)
    × IsClosed cb
unfolding new default_config
closes_after_probes_example =
    closes_after_probes fixed opened opened-IsValid refl refl first (second ∷ []) refl refl

fixed-IsWhole : IsWhole fixed
fixed-IsWhole = record {
  add_none = λ n h. omega arith;
  sub_one = λ n h. omega arith;
  lt_whole = λ m n h k. ground arith;
  le_whole = λ m n h k. ground arith;
}

burst_of-new_token_bucket_example :
    burst_of fixed 5 4 (new_token_bucket fixed 4 7000 (pos 3))
    ≡ true ∷ true ∷ true ∷ false ∷ false ∷ []
burst_of-new_token_bucket_example =
    burst_of-new_token_bucket fixed fixed-IsWhole 3 2 4 7000 (omega arith) refl

-- One probe is wanted, and it panics.
abbrev one_probe : CircuitBreaker
one_probe = record (new (default_config "api")) {
  config = record (default_config "api") { max_requests = 1 };
  state = state_open;
  open_since = 8;
}

abbrev only : Cell CircuitBreaker CircuitBreaker
only = record { get = λ s. s; put = λ a s. a }

abbrev at_minute : Clock CircuitBreaker
at_minute s = (60000000008, s)

abbrev panics : Proc CircuitBreaker (Outcome ℕ)
panics s = panicked s
