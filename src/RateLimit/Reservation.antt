-- ===== src/RateLimit/Reservation.antt =====
-- What the limiters share (internal/ratelimit/ratelimit.go): reservations, and the rounds of a
-- wait.
use goshield_bootcamp.Base.Go.{Duration, Time, GoError}
use goshield_bootcamp.Base.Int.{ℤ}
use goshield_bootcamp.Base.{Bool, Option}

pub record Reservation : Type 0 where
  pub ok : Bool
  pub delay : Duration
  pub time_to_act : ℤ

-- One turn of the loop of Wait, as the clock and the runtime give it: the readings of the clock,
-- and the error of the context if its end is the case that `select` takes after a refusal.
pub record Round : Type 0 where
  pub now : Time
  pub later : Time
  pub done : Option GoError

-- A wait ends with nil, ends with an error, goes on, or panics.
pub data Waited : Type 0 where
  acquired : Waited
  failed : GoError → Waited
  waiting : Waited
  crashed : Waited
