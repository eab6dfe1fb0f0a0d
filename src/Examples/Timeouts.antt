-- ===== src/Examples/Timeouts.antt =====
-- One call of a timeout at a concrete input: the deadline passes, and then the function returns.
use goshield_bootcamp.Timeout.Select.{
  Call, Reach, IsSound, begin, here, next, ends, finishes, gives_up, sending, answered,
  Reach-IsSound, raced_of,
}
use goshield_bootcamp.Timeout.Select.Completes.{settled, over, call_completes}
use goshield_bootcamp.Timeout.{Config, conclude}
use goshield_bootcamp.Base.Go.{Outcome, context_deadline_exceeded, operation_timed_out}
use goshield_bootcamp.Base.Int.{pos}
use goshield_bootcamp.Base.{ℕ, ◌+◌, ◌≡◌, refl, some, none}

-- OnTimeout counts.
abbrev config : Config ℕ
config = record { duration = pos 7; on_timeout = some (λ d s. s + 1) }

abbrev late : Call ℕ ℕ
late = record {
  worker = sending (some 5, none);
  channel = none;
  ended = some context_deadline_exceeded;
  caller = answered (none, some operation_timed_out);
  program = 1;
}

late_reached : Reach {A = ℕ} config (begin 0) late
unfolding conclude raced_of
late_reached =
    next
      (next (next here (ends context_deadline_exceeded refl))
        (gives_up context_deadline_exceeded (none, some operation_timed_out) 1 refl refl refl))
      (finishes (some 5, none) refl)

Reach-IsSound_example : IsSound config late
Reach-IsSound_example = Reach-IsSound config late_reached

call_completes_example :
    (l : Call ℕ ℕ) × Reach config late l
    × (l.worker ≡ settled late.worker)
    × ((v : Outcome ℕ) × (l.caller ≡ answered v))
call_completes_example =
    call_completes config late late_reached (over context_deadline_exceeded refl)
