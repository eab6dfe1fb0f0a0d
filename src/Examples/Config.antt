-- ===== src/Examples/Config.antt =====
-- The configuration at concrete inputs.
use goshield_bootcamp.Examples.Fixed.{fixed}
use goshield_bootcamp.Config.Environment.{apply_env_overrides, Env, apply_env, apply_env_int}
use goshield_bootcamp.Config.Validate.{validate}
use goshield_bootcamp.Base.Int.{pos}
use goshield_bootcamp.Base.{ℕ, ◌≡◌, refl, ◌↔◌, none, some, if◌then◌else◌}
use text.Mathlib.Text.{◌==◌}
use goshield_bootcamp.Config.Types.{Config, RateLimiterConfig}
use goshield_bootcamp.Config.Defaults.{default_config}
use goshield_bootcamp.Config.Validity.{validate-IsValid, IsValid}

validate-IsValid_example :
    (validate fixed (default_config fixed) ≡ none) ↔ IsValid fixed (default_config fixed)
validate-IsValid_example = validate-IsValid fixed (default_config fixed)

-- A bulkhead of no slots is refused.
abbrev none_at_once : Config ℕ
none_at_once = record {
  circuit_breaker = none;
  adaptive = none;
  retry = none;
  rate_limiter = none;
  timeout = none;
  bulkhead = some (record { max_concurrent = pos 0; max_wait_duration_ms = pos 0 });
  metrics = none;
  http = none;
}

none_at_once_refused :
    validate fixed none_at_once
    ≡ some "config validation failed:\n  - bulkhead.max_concurrent must be > 0"
unfolding validate
none_at_once_refused = refl

-- Fixed-point numbers have no NaN; any number of which `<= 0` does not hold will do.
abbrev hundred : RateLimiterConfig ℕ
hundred = record { kind = "token_bucket"; rate = 100000; burst = pos 200 }

abbrev env : Env ℕ
env = record {
  getenv = λ key. if key == "GOSHIELD_TIMEOUT_DURATION_MS" then "7" else "";
  atoi = λ v. if v == "7" then some (pos 7) else none;
  parse_uint = λ bits v. none;
  parse_float = λ v. none;
  parse_bool = λ v. none;
}

apply_env_overrides_timeout :
    (apply_env_overrides env (default_config fixed)).timeout ≡ some (record { duration_ms = pos 7 })
unfolding apply_env_overrides default_config apply_env_int apply_env
apply_env_overrides_timeout = refl
