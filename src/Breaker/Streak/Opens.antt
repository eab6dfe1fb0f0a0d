-- ===== src/Breaker/Streak/Opens.antt =====
-- What a streak of failed calls leads to (internal/breaker/breaker.go).
use goshield_bootcamp.Breaker.Streak.{IsOpen}
use goshield_bootcamp.Base.Go.{Time, Duration, GoError}
use goshield_bootcamp.Base.Float.{Float64}
use goshield_bootcamp.Base.{ℕ, ◌≡◌, none, some, List, [], ◌∷◌, replicate}
use goshield_bootcamp.Breaker.Config.{Config}
use goshield_bootcamp.Breaker.Core.{CircuitBreaker}
use goshield_bootcamp.Breaker.Trace.{Op, run, answers}

-- A call that is begun and ended at readings of the clock, with its error and its duration.
pub record FailedCall : Type 0 where
  pub begun : Time
  pub ended : Time
  pub error : GoError
  pub lasted : Duration

-- One after the other.
abbrev pub in_turn : List FailedCall → List Op
in_turn [] = []
in_turn (x ∷ xs) = Op.before x.begun ∷ Op.after x.ended (some x.error) x.lasted ∷ in_turn xs

module _ {ℓ} {F : Type ℓ} (float : Float64 F) where
  -- The history is admitted whole and ends in a breaker that is open since `now`.
  abbrev Opens : Time → Config → ℕ → List Op → CircuitBreaker → Type 0
  Opens now c n ops cb =
      (cb' : CircuitBreaker) × (run float ops cb ≡ some cb')
      × (answers float ops cb ≡ replicate n none)
      × IsOpen now c cb'
