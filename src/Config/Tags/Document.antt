-- ===== src/Config/Tags/Document.antt =====
-- A configuration as a JSON object: the tags of Config, with `omitempty`
-- (internal/config/config.go).
use goshield_bootcamp.Config.Tags.{Value, Members, find}
use goshield_bootcamp.Config.Tags.Breakers.{
  write_breaker, read_breaker, zero_breaker, write_adaptive, read_adaptive, zero_adaptive,
}
use goshield_bootcamp.Config.Tags.Limits.{
  write_retry, read_retry, zero_retry, write_limiter, read_limiter, zero_limiter, write_timeout,
  read_timeout, zero_timeout, write_bulkhead, read_bulkhead, zero_bulkhead,
}
use goshield_bootcamp.Config.Tags.Servers.{
  write_metrics, read_metrics, zero_metrics, write_http, read_http, zero_http,
}
use goshield_bootcamp.Config.Types.{Config}
use goshield_bootcamp.Base.{Option, none, some, [], ◌∷◌}
use Prim.Native.String.{String}

-- A section that is nil is left out.
abbrev pub member {κ μ} :
    {X : Type κ} {V : Type μ} → String → (X → V) → Option X → Members V → Members V
member key write none rest = rest
member key write (some x) rest = (key, write x) ∷ rest

-- A member of the object, over the section that is there, or over a new one if that is nil.
abbrev pub read_section {κ μ} :
    {X : Type κ} {V : Type μ} → (V → X → X) → X → Option V → Option X → Option X
read_section read zero none base = base
read_section read zero (some v) none = some (read v zero)
read_section read zero (some v) (some x) = some (read v x)

-- A section over another, which stays if the first is nil.
abbrev pub over {κ} : {X : Type κ} → Option X → Option X → Option X
over none base = base
over (some x) base = some x

module _ {ℓ} {F : Type ℓ} where
  -- The members from each section on.
  abbrev pub from_http : Config F → Members (Members (Value F))
  from_http c = member "http" write_http c.http []

  abbrev pub from_metrics : Config F → Members (Members (Value F))
  from_metrics c = member "metrics" write_metrics c.metrics (from_http c)

  abbrev pub from_bulkhead : Config F → Members (Members (Value F))
  from_bulkhead c = member "bulkhead" write_bulkhead c.bulkhead (from_metrics c)

  abbrev pub from_timeout : Config F → Members (Members (Value F))
  from_timeout c = member "timeout" write_timeout c.timeout (from_bulkhead c)

  abbrev pub from_limiter : Config F → Members (Members (Value F))
  from_limiter c = member "rate_limiter" write_limiter c.rate_limiter (from_timeout c)

  abbrev pub from_retry : Config F → Members (Members (Value F))
  from_retry c = member "retry" write_retry c.retry (from_limiter c)

  abbrev pub from_adaptive : Config F → Members (Members (Value F))
  from_adaptive c = member "adaptive" write_adaptive c.adaptive (from_retry c)

  abbrev pub from_breaker : Config F → Members (Members (Value F))
  from_breaker c = member "circuit_breaker" write_breaker c.circuit_breaker (from_adaptive c)

  unfoldable pub write_config : Config F → Members (Members (Value F))
  write_config c = from_breaker c

  unfoldable pub read_config : F → Members (Members (Value F)) → Config F → Config F
  unfolding read_breaker read_adaptive read_retry read_limiter read_timeout read_bulkhead
      read_metrics read_http
  read_config zero doc c = record {
    circuit_breaker =
        read_section read_breaker (zero_breaker zero) (find "circuit_breaker" doc)
          c.circuit_breaker;
    adaptive = read_section read_adaptive (zero_adaptive zero) (find "adaptive" doc) c.adaptive;
    retry = read_section read_retry (zero_retry zero) (find "retry" doc) c.retry;
    rate_limiter =
        read_section read_limiter (zero_limiter zero) (find "rate_limiter" doc) c.rate_limiter;
    timeout = read_section read_timeout (zero_timeout zero) (find "timeout" doc) c.timeout;
    bulkhead = read_section read_bulkhead (zero_bulkhead zero) (find "bulkhead" doc) c.bulkhead;
    metrics = read_section read_metrics (zero_metrics zero) (find "metrics" doc) c.metrics;
    http = read_section read_http (zero_http zero) (find "http" doc) c.http;
  }

  -- A configuration over another, section by section.
  unfoldable pub overlay : Config F → Config F → Config F
  overlay c base = record {
    circuit_breaker = over c.circuit_breaker base.circuit_breaker;
    adaptive = over c.adaptive base.adaptive;
    retry = over c.retry base.retry;
    rate_limiter = over c.rate_limiter base.rate_limiter;
    timeout = over c.timeout base.timeout;
    bulkhead = over c.bulkhead base.bulkhead;
    metrics = over c.metrics base.metrics;
    http = over c.http base.http;
  }
