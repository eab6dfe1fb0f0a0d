-- ===== src/Config/Tags.antt =====
-- The struct tags of the settings (internal/config/config.go): the member of an object in which
-- each field is written, and from which it is read.
pub mod Breakers
pub mod Limits
pub mod Servers
pub mod Document
pub mod RoundTrip
use goshield_bootcamp.Config.Types.{
  CircuitBreakerConfig, AdaptiveConfig, RetryConfig, RateLimiterConfig, TimeoutConfig,
  BulkheadConfig, MetricsConfig, HttpConfig,
}
use goshield_bootcamp.Base.Int.{ℤ, pos}
use goshield_bootcamp.Base.{
  ℕ, ◌≡◌, refl, Bool, false, Option, none, some, List, [], ◌∷◌, if◌then◌else◌,
}
use Prim.Native.String.{String}
use text.Mathlib.Text.{◌==◌}

-- A member's value, by the Go type of the field.
pub data Value {ℓ} (F : Type ℓ) : Type ℓ where
  word : String → Value F
  whole : ℤ → Value F
  natural : ℕ → Value F
  real : F → Value F
  flag : Bool → Value F

-- The members of an object, in the order in which they are written.
abbrev pub Members {ℓ} : Type ℓ → Type ℓ
Members V = List (String × V)

abbrev pub find {ℓ} : {V : Type ℓ} → String → Members V → Option V
find key [] = none
find key ((k, v) ∷ rest) = if key == k then some v else find key rest

module _ {ℓ} {F : Type ℓ} where
  -- A field of the type, over its value: a member that is missing leaves it.
  abbrev pub word_of : Option (Value F) → String → String
  word_of (some (word x)) base = x
  word_of _ base = base

  -- A field of the type, over its value: a member that is missing leaves it.
  abbrev pub whole_of : Option (Value F) → ℤ → ℤ
  whole_of (some (whole x)) base = x
  whole_of _ base = base

  -- A field of the type, over its value: a member that is missing leaves it.
  abbrev pub natural_of : Option (Value F) → ℕ → ℕ
  natural_of (some (natural x)) base = x
  natural_of _ base = base

  -- A field of the type, over its value: a member that is missing leaves it.
  abbrev pub real_of : Option (Value F) → F → F
  real_of (some (real x)) base = x
  real_of _ base = base

  -- A field of the type, over its value: a member that is missing leaves it.
  abbrev pub flag_of : Option (Value F) → Bool → Bool
  flag_of (some (flag x)) base = x
  flag_of _ base = base
