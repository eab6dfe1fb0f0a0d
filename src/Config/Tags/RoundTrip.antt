-- ===== src/Config/Tags/RoundTrip.antt =====
-- What is written of a configuration is read back (internal/config/config.go).
use goshield_bootcamp.Config.Tags.{Members, find}
use goshield_bootcamp.Config.Tags.Breakers.{
  write_breaker, read_breaker, read-write_breaker, zero_breaker, write_adaptive, read_adaptive,
  read-write_adaptive, zero_adaptive,
}
use goshield_bootcamp.Config.Tags.Limits.{
  write_retry, read_retry, read-write_retry, zero_retry, write_limiter, read_limiter,
  read-write_limiter, zero_limiter, write_timeout, read_timeout, read-write_timeout, zero_timeout,
  write_bulkhead, read_bulkhead, read-write_bulkhead, zero_bulkhead,
}
use goshield_bootcamp.Config.Tags.Servers.{
  write_metrics, read_metrics, read-write_metrics, zero_metrics, write_http, read_http,
  read-write_http, zero_http,
}
use goshield_bootcamp.Config.Types.{Config}
use goshield_bootcamp.Base.{◌≡◌, refl, ap, ◌∙◌, true, false, Option, none, some, []}
use Prim.Native.String.{String}
use text.Mathlib.Text.{◌==◌}
use goshield_bootcamp.Config.Tags.Document.{
  member, read_section, over, write_config, read_config, overlay, from_breaker, from_adaptive,
  from_retry, from_limiter, from_timeout, from_bulkhead, from_metrics, from_http,
}

find-other {κ μ} :
    {Y : Type κ} {V : Type μ} (key other : String) (write : Y → V) (y : Option Y) (rest : Members V)
    → (key == other) ≡ false
    → find key (member other write y rest) ≡ find key rest
find-other key other write none rest h = refl
find-other key other write (some y) rest h = rw (h) refl

module _ {κ μ} {X : Type κ} {V : Type μ} where
  read-member :
      (key : String) (write : X → V) (read : V → X → X) (zero : X) (x base : Option X)
      (rest : Members V)
      → (key == key) ≡ true
      → find key rest ≡ none
      → ((c b : X) → read (write c) b ≡ c)
      → read_section read zero (find key (member key write x rest)) base ≡ over x base
  read-member key write read zero none base rest h gone same = rw (gone) refl
  read-member key write read zero (some x) none rest h gone same = rw (h) (ap some (same x zero))
  read-member key write read zero (some x) (some b) rest h gone same = rw (h) (ap some (same x b))

module _ {ℓ} {F : Type ℓ} where
  section_breaker :
      (zero : F) (c base : Config F)
      → read_section read_breaker
          (zero_breaker zero)
          (find "circuit_breaker" (from_breaker c))
          base.circuit_breaker
        ≡ over c.circuit_breaker base.circuit_breaker
  section_breaker zero c base =
      read-member "circuit_breaker" write_breaker read_breaker (zero_breaker zero) c.circuit_breaker
        base.circuit_breaker (from_adaptive c) refl
        (find-other "circuit_breaker" "adaptive" write_adaptive c.adaptive (from_retry c) refl
          ∙ find-other "circuit_breaker" "retry" write_retry c.retry (from_limiter c) refl
          ∙ find-other "circuit_breaker" "rate_limiter" write_limiter c.rate_limiter
              (from_timeout c) refl
          ∙ find-other "circuit_breaker" "timeout" write_timeout c.timeout (from_bulkhead c) refl
          ∙ find-other "circuit_breaker" "bulkhead" write_bulkhead c.bulkhead (from_metrics c) refl
          ∙ find-other "circuit_breaker" "metrics" write_metrics c.metrics (from_http c) refl
          ∙ find-other "circuit_breaker" "http" write_http c.http [] refl)
        (read-write_breaker F)

  section_adaptive :
      (zero : F) (c base : Config F)
      → read_section read_adaptive
          (zero_adaptive zero)
          (find "adaptive" (from_breaker c))
          base.adaptive
        ≡ over c.adaptive base.adaptive
  section_adaptive zero c base =
      rw
        (find-other "adaptive" "circuit_breaker" write_breaker c.circuit_breaker (from_adaptive c)
          refl)
        (read-member "adaptive" write_adaptive read_adaptive (zero_adaptive zero) c.adaptive
          base.adaptive (from_retry c) refl
          (find-other "adaptive" "retry" write_retry c.retry (from_limiter c) refl
            ∙ find-other "adaptive" "rate_limiter" write_limiter c.rate_limiter (from_timeout c)
                refl
            ∙ find-other "adaptive" "timeout" write_timeout c.timeout (from_bulkhead c) refl
            ∙ find-other "adaptive" "bulkhead" write_bulkhead c.bulkhead (from_metrics c) refl
            ∙ find-other "adaptive" "metrics" write_metrics c.metrics (from_http c) refl
            ∙ find-other "adaptive" "http" write_http c.http [] refl)
          (read-write_adaptive F))

  section_retry :
      (zero : F) (c base : Config F)
      → read_section read_retry (zero_retry zero) (find "retry" (from_breaker c)) base.retry
        ≡ over c.retry base.retry
  section_retry zero c base =
      rw
        (
          find-other "retry" "circuit_breaker" write_breaker c.circuit_breaker (from_adaptive c)
              refl,
          find-other "retry" "adaptive" write_adaptive c.adaptive (from_retry c) refl,
        )
        (read-member "retry" write_retry read_retry (zero_retry zero) c.retry base.retry
          (from_limiter c) refl
          (find-other "retry" "rate_limiter" write_limiter c.rate_limiter (from_timeout c) refl
            ∙ find-other "retry" "timeout" write_timeout c.timeout (from_bulkhead c) refl
            ∙ find-other "retry" "bulkhead" write_bulkhead c.bulkhead (from_metrics c) refl
            ∙ find-other "retry" "metrics" write_metrics c.metrics (from_http c) refl
            ∙ find-other "retry" "http" write_http c.http [] refl)
          (read-write_retry F))

  section_limiter :
      (zero : F) (c base : Config F)
      → read_section read_limiter
          (zero_limiter zero)
          (find "rate_limiter" (from_breaker c))
          base.rate_limiter
        ≡ over c.rate_limiter base.rate_limiter
  section_limiter zero c base =
      rw
        (
          find-other "rate_limiter" "circuit_breaker" write_breaker c.circuit_breaker
              (from_adaptive c) refl,
          find-other "rate_limiter" "adaptive" write_adaptive c.adaptive (from_retry c) refl,
          find-other "rate_limiter" "retry" write_retry c.retry (from_limiter c) refl,
        )
        (read-member "rate_limiter" write_limiter read_limiter (zero_limiter zero) c.rate_limiter
          base.rate_limiter (from_timeout c) refl
          (find-other "rate_limiter" "timeout" write_timeout c.timeout (from_bulkhead c) refl
            ∙ find-other "rate_limiter" "bulkhead" write_bulkhead c.bulkhead (from_metrics c) refl
            ∙ find-other "rate_limiter" "metrics" write_metrics c.metrics (from_http c) refl
            ∙ find-other "rate_limiter" "http" write_http c.http [] refl)
          (read-write_limiter F))

  section_timeout :
      (zero : F) (c base : Config F)
      → read_section read_timeout (zero_timeout zero) (find "timeout" (from_breaker c)) base.timeout
        ≡ over c.timeout base.timeout
  section_timeout zero c base =
      rw
        (
          find-other "timeout" "circuit_breaker" write_breaker c.circuit_breaker (from_adaptive c)
              refl,
          find-other "timeout" "adaptive" write_adaptive c.adaptive (from_retry c) refl,
          find-other "timeout" "retry" write_retry c.retry (from_limiter c) refl,
          find-other "timeout" "rate_limiter" write_limiter c.rate_limiter (from_timeout c) refl,
        )
        (read-member "timeout" write_timeout read_timeout (zero_timeout zero) c.timeout base.timeout
          (from_bulkhead c) refl
          (find-other "timeout" "bulkhead" write_bulkhead c.bulkhead (from_metrics c) refl
            ∙ find-other "timeout" "metrics" write_metrics c.metrics (from_http c) refl
            ∙ find-other "timeout" "http" write_http c.http [] refl)
          (read-write_timeout F))

  section_bulkhead :
      (zero : F) (c base : Config F)
      → read_section read_bulkhead
          (zero_bulkhead zero)
          (find "bulkhead" (from_breaker c))
          base.bulkhead
        ≡ over c.bulkhead base.bulkhead
  section_bulkhead zero c base =
      rw
        (
          find-other "bulkhead" "circuit_breaker" write_breaker c.circuit_breaker (from_adaptive c)
              refl,
          find-other "bulkhead" "adaptive" write_adaptive c.adaptive (from_retry c) refl,
          find-other "bulkhead" "retry" write_retry c.retry (from_limiter c) refl,
          find-other "bulkhead" "rate_limiter" write_limiter c.rate_limiter (from_timeout c) refl,
          find-other "bulkhead" "timeout" write_timeout c.timeout (from_bulkhead c) refl,
        )
        (read-member "bulkhead" write_bulkhead read_bulkhead (zero_bulkhead zero) c.bulkhead
          base.bulkhead (from_metrics c) refl
          (find-other "bulkhead" "metrics" write_metrics c.metrics (from_http c) refl
            ∙ find-other "bulkhead" "http" write_http c.http [] refl)
          (read-write_bulkhead F))

  section_metrics :
      (zero : F) (c base : Config F)
      → read_section read_metrics (zero_metrics zero) (find "metrics" (from_breaker c)) base.metrics
        ≡ over c.metrics base.metrics
  section_metrics zero c base =
      rw
        (
          find-other "metrics" "circuit_breaker" write_breaker c.circuit_breaker (from_adaptive c)
              refl,
          find-other "metrics" "adaptive" write_adaptive c.adaptive (from_retry c) refl,
          find-other "metrics" "retry" write_retry c.retry (from_limiter c) refl,
          find-other "metrics" "rate_limiter" write_limiter c.rate_limiter (from_timeout c) refl,
          find-other "metrics" "timeout" write_timeout c.timeout (from_bulkhead c) refl,
          find-other "metrics" "bulkhead" write_bulkhead c.bulkhead (from_metrics c) refl,
        )
        (read-member "metrics" write_metrics read_metrics (zero_metrics zero) c.metrics base.metrics
          (from_http c) refl (find-other "metrics" "http" write_http c.http [] refl)
          (read-write_metrics F))

  section_http :
      (zero : F) (c base : Config F)
      → read_section read_http (zero_http zero) (find "http" (from_breaker c)) base.http
        ≡ over c.http base.http
  section_http zero c base =
      rw
        (
          find-other "http" "circuit_breaker" write_breaker c.circuit_breaker (from_adaptive c)
              refl,
          find-other "http" "adaptive" write_adaptive c.adaptive (from_retry c) refl,
          find-other "http" "retry" write_retry c.retry (from_limiter c) refl,
          find-other "http" "rate_limiter" write_limiter c.rate_limiter (from_timeout c) refl,
          find-other "http" "timeout" write_timeout c.timeout (from_bulkhead c) refl,
          find-other "http" "bulkhead" write_bulkhead c.bulkhead (from_metrics c) refl,
          find-other "http" "metrics" write_metrics c.metrics (from_http c) refl,
        )
        (read-member "http" write_http read_http (zero_http zero) c.http base.http [] refl (refl)
          (read-write_http F))

  -- What is written of a configuration is read over another as the sections that it has, with all
  -- their fields.
  pub read_config-write_config :
      (zero : F) (c base : Config F) → read_config zero (write_config c) base ≡ overlay c base
  unfolding read_config write_config overlay
  read_config-write_config zero c base =
      rw
        (
          section_breaker zero c base,
          section_adaptive zero c base,
          section_retry zero c base,
          section_limiter zero c base,
          section_timeout zero c base,
          section_bulkhead zero c base,
          section_metrics zero c base,
          section_http zero c base,
        )
        refl
