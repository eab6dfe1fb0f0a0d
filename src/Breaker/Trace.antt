-- ===== src/Breaker/Trace.antt =====
-- The circuit breaker under many goroutines: a history is a list of its critical sections, in the
-- order in which they take the mutex (internal/breaker/breaker.go).
use goshield_bootcamp.Base.{ℕ, suc, Option, none, some, List, [], ◌∷◌}
use goshield_bootcamp.Base.Go.{Time, Duration, GoError}
use goshield_bootcamp.Base.Float.{Float64}
use goshield_bootcamp.Breaker.Core.{CircuitBreaker, get_state_unsafe, before_call}
use goshield_bootcamp.Breaker.Calls.{after_call, reset, force_open, reject}

-- `before` and `rejects` and `after` are the parts of `Execute`; `observes` is `State` or
-- `GetMetrics`, which make the lazy transition.
pub data Op : Type 0 where
  before : Time → Op
  rejects : Op
  after : Time → Option GoError → Duration → Op
  observes : Time → Op
  resets : Op
  forces : Op

-- How many of them are `beforeCall`.
abbrev pub befores : List Op → ℕ
befores [] = 0
befores (before now ∷ ops) = suc (befores ops)
befores (_ ∷ ops) = befores ops

-- What `beforeCall` answers along a history.
abbrev pub answer : Op → CircuitBreaker → List (Option GoError) → List (Option GoError)
unfolding before_call
answer (before now) cb rest = (before_call now cb).0 ∷ rest
answer _ cb rest = rest

module _ {ℓ} {F : Type ℓ} (float : Float64 F) where
  unfoldable pub step : Op → CircuitBreaker → Option CircuitBreaker
  unfolding before_call reject after_call get_state_unsafe reset force_open
  step (before now) cb = some (before_call now cb).1
  step rejects cb = some (reject cb)
  step (after now err duration) cb = after_call float now err duration cb
  step (observes now) cb = some (get_state_unsafe now cb)
  step resets cb = some (reset cb)
  step forces cb = some (force_open cb)

  -- A panic ends the history.
  unfoldable pub run : List Op → CircuitBreaker → Option CircuitBreaker
  run [] cb = some cb
  run (op ∷ ops) cb = elim (step op cb) [ none ↦ none | some cb' ↦ run ops cb' ]

  unfoldable pub answers : List Op → CircuitBreaker → List (Option GoError)
  answers [] cb = []
  answers (op ∷ ops) cb = elim (step op cb) [
    | none ↦ []
    | some cb' ↦ answer op cb (answers ops cb')
  ]
