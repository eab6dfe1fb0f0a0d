-- ===== src/Config/Json.antt =====
-- Configurations as JSON (internal/config/config.go). encoding/json and the file system are
-- parameters.
use goshield_bootcamp.Base.Go.{is_err}
use goshield_bootcamp.Base.Float.{Float64}
use goshield_bootcamp.Config.Defaults.{default_config}
use goshield_bootcamp.Config.Types.{Config}
use goshield_bootcamp.Config.Tags.{Value, Members}
use goshield_bootcamp.Config.Tags.RoundTrip.{read_config-write_config}
use goshield_bootcamp.Config.Tags.Document.{write_config, read_config, over, overlay}
use goshield_bootcamp.Base.{
  ◌⊎◌, inl, inr, arith, ◌≡◌, refl, ap, ◌∙◌, Bool, true, false, ◌&&◌, Option, none, some,
  if◌then◌else◌,
}

-- `json.Marshal` and `json.MarshalIndent`, where `none` is an error; the nil slice; and
-- `json.Unmarshal` into a configuration, which it leaves as the text says, and whether it fails.
pub record Json {ℓ κ} (B : Type ℓ) (F : Type κ) : Type (ℓ ⊔ κ) where
  pub nil : B
  pub marshal : Config F → Option B
  pub marshal_indent : Config F → Option B
  pub unmarshal : B → Config F → Config F × Bool

module _ {μ} {X : Type μ} where
  over-none : (x : Option X) → over x none ≡ x
  over-none none = refl
  over-none (some x) = refl

  over_set : (x base : Option X) → is_err x ≡ true → over x base ≡ x
  over_set none base h = absurd (ground arith)
  over_set (some x) base h = refl

module _ {κ} {F : Type κ} where
  -- `&Config{}`
  abbrev pub empty_config : Config F
  empty_config = record {
    circuit_breaker = none;
    adaptive = none;
    retry = none;
    rate_limiter = none;
    timeout = none;
    bulkhead = none;
    metrics = none;
    http = none;
  }

  overlay-empty : (c : Config F) → overlay c empty_config ≡ c
  unfolding overlay
  overlay-empty c = rw (
    over-none c.circuit_breaker,
    over-none c.adaptive,
    over-none c.retry,
    over-none c.rate_limiter,
    over-none c.timeout,
    over-none c.bulkhead,
    over-none c.metrics,
    over-none c.http,
  )

  -- No section is nil.
  abbrev pub is_full : Config F → Bool
  is_full c =
      is_err c.circuit_breaker
      && is_err c.adaptive
      && is_err c.retry
      && is_err c.rate_limiter
      && is_err c.timeout
      && is_err c.bulkhead
      && is_err c.metrics
      && is_err c.http

  overlay_full : (c base : Config F) → is_full c ≡ true → overlay c base ≡ c
  unfolding overlay
  overlay_full c base h = rw (
    over_set c.circuit_breaker base.circuit_breaker (ground arith),
    over_set c.adaptive base.adaptive (ground arith),
    over_set c.retry base.retry (ground arith),
    over_set c.rate_limiter base.rate_limiter (ground arith),
    over_set c.timeout base.timeout (ground arith),
    over_set c.bulkhead base.bulkhead (ground arith),
    over_set c.metrics base.metrics (ground arith),
    over_set c.http base.http (ground arith),
  )

module _ {ℓ κ} {B : Type ℓ} {F : Type κ} (json : Json B F) where
  unfoldable pub load_bytes : Float64 F → B → Option (Config F)
  unfolding default_config
  load_bytes float bytes =
      let (cfg, failed) = json.unmarshal bytes (default_config float) in
      if failed then none else some cfg

  -- LoadFile, of what `os.ReadFile` gives.
  unfoldable pub load_file : Float64 F → Option B → Option (Config F)
  unfolding load_bytes
  load_file float none = none
  load_file float (some bytes) = load_bytes float bytes

  -- An error of Marshal leaves the nil slice, and one of Unmarshal is not looked at.
  unfoldable pub deep_copy : Config F → Config F
  deep_copy c =
      let bytes : B = elim (json.marshal c) [ none ↦ json.nil | some d ↦ d ] in
      (json.unmarshal bytes empty_config).0

  unfoldable pub to_json : Config F → Option B
  to_json c = json.marshal_indent c

  -- As encoding/json documents: Marshal and MarshalIndent write the object that the tags of a value
  -- say, of which `parse` is the text; Unmarshal reads the members of such an object into the
  -- fields that the tags say, and leaves what has no member as it was; and no text is an error.
  -- `zero` is the zero value of float64.
  pub record IsJson (zero : F) : Type (ℓ ⊔ κ) where
    pub parse : B → Option (Members (Members (Value F)))
    pub by_marshal :
        (c : Config F) (d : B) → json.marshal c ≡ some d → parse d ≡ some (write_config c)
    pub by_indent :
        (c : Config F) (d : B) → json.marshal_indent c ≡ some d → parse d ≡ some (write_config c)
    pub by_unmarshal :
        (c base : Config F) (d : B)
        → parse d ≡ some (write_config c)
        → json.unmarshal d base ≡ (read_config zero (write_config c) base, false)
    pub by_nil : (base : Config F) → json.unmarshal json.nil base ≡ (base, true)

  read_back :
      (zero : F)
      → IsJson zero
      → (c base : Config F) (d : B) → json.marshal c ≡ some d ⊎ json.marshal_indent c ≡ some d
      → json.unmarshal d base ≡ (overlay c base, false)
  read_back zero h c base d (inl e) =
      h.by_unmarshal c base d (h.by_marshal c d e)
      ∙ ap (λ (x : Config F). (x, false)) (read_config-write_config zero c base)
  read_back zero h c base d (inr e) =
      h.by_unmarshal c base d (h.by_indent c d e)
      ∙ ap (λ (x : Config F). (x, false)) (read_config-write_config zero c base)

  -- DeepCopy is the identity on a configuration that Marshal takes; of one that it refuses, it
  -- makes the empty configuration.
  pub deep_copy_lem :
      (zero : F)
      → IsJson zero
      → (c : Config F)
      → ((d : B) → json.marshal c ≡ some d → deep_copy c ≡ c)
        × (json.marshal c ≡ none → deep_copy c ≡ empty_config)
  unfolding deep_copy
  deep_copy_lem zero h c = (
    λ d e.
        rw (e, deep_copy)
          (ap (λ (p : Config F × Bool). p.0) (read_back zero h c empty_config d (inl e))
            ∙ overlay-empty c),
    λ e. rw (e, deep_copy) (ap (λ (p : Config F × Bool). p.0) (h.by_nil empty_config)),
  )

  -- What ToJSON writes, LoadBytes reads back: as the same configuration if all its sections are
  -- set; a section that is not set comes back as the default one.
  pub load_bytes-to_json :
      (zero : F)
      → IsJson zero
      → (float : Float64 F) (c : Config F) (d : B) → to_json c ≡ some d
      → (load_bytes float d ≡ some (overlay c (default_config float)))
        × (is_full c ≡ true → load_bytes float d ≡ some c)
  unfolding load_bytes to_json
  load_bytes-to_json zero h float c d e =
      let read = read_back zero h c (default_config float) d (inr e) in
      (rw read refl, λ full. rw read (ap some (overlay_full c (default_config float) full)))
