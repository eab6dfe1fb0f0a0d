-- ===== src/Examples/Adaptive.antt =====
-- The adaptive breaker at concrete inputs.
use goshield_bootcamp.Examples.Fixed.{fixed}
use goshield_bootcamp.Base.Go.{Clock, other, Proc, Outcome, returned, open_state, Cell}
use goshield_bootcamp.Base.Int.{pos}
use goshield_bootcamp.Breaker.Latch.{
  execute_adaptive_latched, update_emas_clamped, IsOrdered, Turn, calls, updates, passes, outcomes,
}
use goshield_bootcamp.Breaker.Execute.{execute}
use goshield_bootcamp.Breaker.Core.{record_result}
use goshield_bootcamp.Bulkhead.Execute.{end_of}
use goshield_bootcamp.Base.{List, leb, [], ◌∷◌, ℕ, ◌≡◌, refl, true, none, some, arith}
use goshield_bootcamp.Breaker.Adaptive.{
  inner_cell, update_emas, AdaptiveConfig, AdaptiveBreaker, new_adaptive,
}
use goshield_bootcamp.Breaker.Config.{state_closed, state_half_open, state_open, default_config}

abbrev settings : AdaptiveConfig ℕ
unfolding default_config
settings = record {
  base = default_config "api";
  failure_rate_ema_alpha = 500;
  latency_ema_alpha = 300;
  min_failure_rate_threshold = 20000;
  max_failure_rate_threshold = 80000;
  consecutive_failure_limit = 2;
  slow_call_multiplier = 0;
  min_slow_call_duration = pos 0;
  max_slow_call_duration = pos 0;
  timeout_multiplier = 0;
  max_timeout = pos 0;
}

two_failures : AdaptiveBreaker ℕ
unfolding new_adaptive
two_failures = record (new_adaptive fixed settings) {
  consecutive_failures = 2;
  window_failures = 2;
  window_calls = 2;
}

fixed-IsOrdered : IsOrdered fixed
fixed-IsOrdered = record { lt_irrefl = λ x. ground arith; le_of_lt = λ x y h k l. ground arith }

update_emas_clamped_example :
    (leb 20000 (update_emas fixed two_failures).current_threshold ≡ true)
    × (leb (update_emas fixed two_failures).current_threshold 80000 ≡ true)
unfolding two_failures new_adaptive settings update_emas
update_emas_clamped_example =
    update_emas_clamped fixed fixed-IsOrdered two_failures refl refl refl (omega arith) refl

abbrev only : Cell (AdaptiveBreaker ℕ) (AdaptiveBreaker ℕ)
only = record { get = λ s. s; put = λ a s. a }

abbrev ok_call : Proc (AdaptiveBreaker ℕ) (Outcome ℕ)
ok_call s = returned (some 1, none) s

abbrev at_nine : Clock (AdaptiveBreaker ℕ)
at_nine s = (9, s)

one_failure : AdaptiveBreaker ℕ
unfolding two_failures new_adaptive settings
one_failure = record two_failures { consecutive_failures = 1 }

abbrev fails : Proc (AdaptiveBreaker ℕ) (Outcome ℕ)
fails s = returned (none, some (other 7)) s

abbrev after_failure : AdaptiveBreaker ℕ
unfolding one_failure execute
after_failure = end_of (execute fixed (inner_cell only) at_nine fails one_failure)

abbrev turns : List (Turn (AdaptiveBreaker ℕ) ℕ)
turns = calls ok_call ∷ updates ∷ passes (λ s. s) ∷ calls ok_call ∷ []

execute_adaptive_latched_example :
    outcomes fixed only at_nine (calls fails ∷ turns) one_failure
    ≡ (none, some (other 7)) ∷ (none, some open_state) ∷ (none, some open_state) ∷ []
unfolding one_failure two_failures new_adaptive settings after_failure record_result
execute_adaptive_latched_example =
    execute_adaptive_latched fixed only at_nine (λ a s. refl) fails one_failure after_failure none
      (other 7) refl refl refl refl (omega arith) turns (tt, (tt, (λ s. refl, (tt, tt))))

-- After two trips, with a timeout that grows.
tripped : AdaptiveBreaker ℕ
unfolding two_failures new_adaptive settings
tripped = record two_failures {
  config = record two_failures.config { timeout_multiplier = 2000; slow_call_multiplier = 1500 };
  inner = record two_failures.inner {
    spawned = (state_closed, state_open) ∷ (state_half_open, state_open) ∷ [];
  };
}
