-- ===== src/Metrics/Sample.antt =====
-- Samples (internal/metrics/collector.go). float64 is the parameter `F`.
use Prim.Native.String.{String}
use goshield_bootcamp.Base.Go.{Time}
use goshield_bootcamp.Base.{List}

pub data MetricType : Type 0 where
  counter gauge histogram summary : MetricType

-- `MetricType.String`
unfoldable pub type_string : MetricType → String
type_string counter = "counter"
type_string gauge = "gauge"
type_string histogram = "histogram"
type_string summary = "summary"

pub record Label : Type 0 where
  pub name : String
  pub value : String

pub record MetricSample {ℓ} (F : Type ℓ) : Type ℓ where
  pub name : String
  pub labels : List Label
  pub value : F
  pub kind : MetricType
  pub help : String
  pub timestamp : Time

-- The method Collect, over any state of the program.
abbrev pub Collector {ℓ μ} : Type ℓ → Type μ → Type (ℓ ⊔ μ)
Collector S F = S → List (MetricSample F) × S
