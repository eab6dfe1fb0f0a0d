-- ===== src/Programs/Literals.antt =====
-- Composite literals: the configurations whose fields are all left out, and statements in turn.
use goshield_bootcamp.Breaker.Config.{Config as BreakerConfig, sliding_window_count}
use goshield_bootcamp.Bulkhead.Core.{Config as BulkheadConfig}
use goshield_bootcamp.Backoff.Retry.{RetryConfig}
use goshield_bootcamp.Backoff.Strategy.{Strategy}
use goshield_bootcamp.Base.Go.{Outcome, Proc, Exit, returned, panicked, Duration}
use goshield_bootcamp.Base.Int.{ℤ, pos}
use goshield_bootcamp.Base.{ℕ, suc, zero, ◌+◌, false, none}

-- `breaker.Config{}`
abbrev pub no_breaker_config : BreakerConfig
no_breaker_config = record {
  name = "";
  max_requests = 0;
  interval = pos 0;
  timeout = pos 0;
  failure_rate_threshold = 0;
  slow_call_rate_threshold = 0;
  slow_call_duration = pos 0;
  minimum_number_of_calls = 0;
  sliding_window_size = 0;
  sliding_window_type = sliding_window_count;
  on_state_change = false;
  is_successful = none;
}

-- `bulkhead.Config{MaxConcurrent: n, MaxWaitDuration: d}`
abbrev pub bulkhead_literal : ℤ → Duration → BulkheadConfig
bulkhead_literal n d = record {
  max_concurrent = n;
  max_wait_duration = d;
  on_call_rejected = false;
}

-- `backoff.RetryConfig{Backoff: b}`
abbrev pub retry_literal {ℓ} : {S : Type ℓ} → Strategy → RetryConfig S
retry_literal b = record { backoff = b; retry_on = none; on_retry = none }

module _ {ℓ} {S : Type ℓ} where
  infixl 5 ◌>>◌
  abbrev pub ◌>>◌ {κ} : {B : Type κ} → Proc S (Unit {0}) → Proc S B → Proc S B
  ◌>>◌ m k s = elim (m s) [ returned u s' ↦ k s' | panicked s' ↦ panicked s' ]

  -- A statement that only changes the state.
  abbrev pub act : (S → S) → Proc S (Unit {0})
  act f s = returned tt (f s)

  -- A call whose result is not looked at.
  abbrev pub discard {κ} : {A : Type κ} → Exit S (Outcome A) → Exit S (Unit {0})
  discard (returned r s) = returned tt s
  discard (panicked s) = panicked s

  -- `for i := from; i < from + n; i++`
  unfoldable pub repeat : ℕ → ℕ → (ℕ → Proc S (Unit {0})) → Proc S (Unit {0})
  repeat zero i body s = returned tt s
  repeat (suc n) i body s = elim (body i s) [
    | returned u s' ↦ repeat n (i + 1) body s'
    | panicked s' ↦ panicked s'
  ]
