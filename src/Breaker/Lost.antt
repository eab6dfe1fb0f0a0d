-- ===== src/Breaker/Lost.antt =====
-- What becomes of a circuit breaker whose probe panics (internal/breaker/breaker.go).
use goshield_bootcamp.Breaker.Config.{state_open}
use goshield_bootcamp.Breaker.Core.{CircuitBreaker}
use goshield_bootcamp.Base.Go.{Time, since}
use goshield_bootcamp.Base.Int.{leb_ℤ}
use goshield_bootcamp.Base.{◌≡◌, true}

-- Open, with one probe, and with its timeout passed at the reading `now`.
pub record IsDue (now : Time) (cb : CircuitBreaker) : Type 0 where
  pub opened : cb.state ≡ state_open
  pub passed : leb_ℤ cb.config.timeout (since now cb.open_since) ≡ true
  pub one_probe : cb.config.max_requests ≡ 1
