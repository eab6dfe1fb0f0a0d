-- ===== src/Examples/Streak.antt =====
-- Streaks and runs of Execute of the circuit breaker at concrete inputs.
use goshield_bootcamp.Breaker.Streak.Opens.{FailedCall}
use goshield_bootcamp.Breaker.Sections.{Leads, sections, admission, execute_history}
use goshield_bootcamp.Breaker.Execute.{execute}
use goshield_bootcamp.Breaker.Core.{CircuitBreaker, new, before_call}
use goshield_bootcamp.Breaker.Config.{Config, default_config}
use goshield_bootcamp.Breaker.Invariant.{FitsWords, new-IsValid}
use goshield_bootcamp.Breaker.Trace.{run}
use goshield_bootcamp.Bulkhead.Execute.{end_of}
use goshield_bootcamp.Base.Go.{Cell, Clock, Proc, Outcome, returned, other}
use goshield_bootcamp.Base.Int.{pos}
use goshield_bootcamp.Base.{ℕ, refl, some, none, [], arith}
use goshield_bootcamp.Examples.Fixed.{fixed}

abbrev config : Config
config = record (default_config "api") { minimum_number_of_calls = 2 }

abbrev first : FailedCall
first = record { begun = 1; ended = 5; error = other 7; lasted = pos 4 }

abbrev last : FailedCall
last = record { begun = 6; ended = 8; error = other 7; lasted = pos 2 }

abbrev only : Cell CircuitBreaker CircuitBreaker
only = record { get = λ s. s; put = λ a s. a }

abbrev at_nine : Clock CircuitBreaker
at_nine s = (9, s)

abbrev ok_call : Proc CircuitBreaker (Outcome ℕ)
ok_call s = returned (some 5, none) s

config-FitsWords : FitsWords config
unfolding default_config
config-FitsWords = record { requests = omega arith }

execute_history_example :
    let ended = end_of (execute fixed only at_nine ok_call (new config)) in
    Leads fixed only
      (sections 9
        (before_call 9 (new config)).0
        []
        9
        at_nine
        (ok_call (before_call 9 (new config)).1))
      (new config)
      ended
unfolding run admission
execute_history_example =
    execute_history fixed only at_nine (λ a s. refl) (λ s. refl) ok_call (new config)
      (new-IsValid config config-FitsWords) [] (λ admitted. refl)
