-- ===== src/Examples/Bulkhead.antt =====
-- The bulkhead at concrete inputs.
use goshield_bootcamp.Bulkhead.Crowd.{
  next, sends, begins, System, here, IsSafe, Reach-IsSafe, start, Reach, counts,
}
use goshield_bootcamp.Base.Int.{pos}
use goshield_bootcamp.Base.{ℕ, ◌≡◌, refl, true, arith}
use goshield_bootcamp.Base.Go.{Outcome, panicked, Cell, Proc}
use goshield_bootcamp.Bulkhead.Execute.{end_of, execute, execute-IsBalanced, Selected, sent, slots}
use goshield_bootcamp.Bulkhead.Core.{count_call, send, count_active, Bulkhead, Config, new}

abbrev single : Config
single = record { max_concurrent = pos 1; max_wait_duration = pos 0; on_call_rejected = true }

abbrev only : Cell Bulkhead Bulkhead
only = record { get = λ s. s; put = λ a s. a }

abbrev always_sent : Bulkhead → Selected × Bulkhead
always_sent b = (sent, b)

abbrev crashes : Proc Bulkhead (Outcome ℕ)
crashes b = panicked b

-- A function that panics inside Execute.
execute-IsBalanced_example :
    slots only always_sent (end_of (execute only always_sent crashes (new single))) ≡ (0, 0)
unfolding new
execute-IsBalanced_example =
    execute-IsBalanced only always_sent (λ a s. refl) (λ s. refl) crashes (λ s. refl) (new single)

abbrev entered : System
entered = record (start single) { bulkhead = send (new single); sending = 1 }

abbrev counted_in : System
counted_in = record (start single) { bulkhead = count_active (send (new single)); counted = 1 }

abbrev one_running : System
one_running = record (start single) {
  bulkhead = count_call (count_active (send (new single)));
  running = 1;
}

one_running_reached : Reach (start single) one_running
unfolding new
one_running_reached =
    next {t = counted_in}
      (next {t = entered} (next {t = start single} here (sends (ground arith)))
        (counts (omega arith)))
      (begins (omega arith))

Reach-IsSafe_example : IsSafe one_running
Reach-IsSafe_example = Reach-IsSafe single one_running one_running_reached
