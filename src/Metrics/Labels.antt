-- ===== src/Metrics/Labels.antt =====
-- Labels (internal/metrics/collector.go): pairs of strings, and their text in an exposition. `sort`
-- and `fmt` are parameters.
use goshield_bootcamp.Metrics.Sample.{Label, MetricSample}
use goshield_bootcamp.Base.Go.{Time}
use goshield_bootcamp.Base.{Bool, Option, none, some, List, [], ◌∷◌, if◌then◌else◌}
use Prim.Native.String.{String, ◌++◌ as ◌<>◌}

-- The loop of Labels; `none` is the panic on a string without a partner.
unfoldable pub label_pairs : List String → Option (List Label)
label_pairs [] = some []
label_pairs (n ∷ []) = none
label_pairs (n ∷ v ∷ rest) = elim (label_pairs rest) [
  | none ↦ none
  | some ls ↦ some (record { name = n; value = v } ∷ ls)
]

-- Labels, with what `sort.Slice` does to its slice.
unfoldable pub sorted_labels : (List Label → List Label) → List String → Option (List Label)
unfolding label_pairs
sorted_labels sort pairs = elim (label_pairs pairs) [ none ↦ none | some ls ↦ some (sort ls) ]

-- How `fmt` writes a float64 with %g and a string with %q, what `UnixMilli` with %d makes of a
-- time, and whether it `IsZero`.
pub record Format {ℓ} (F : Type ℓ) : Type ℓ where
  pub general : F → String
  pub quoted : String → String
  pub unix_milli : Time → String
  pub is_zero : Time → Bool

module _ {ℓ} {F : Type ℓ} (format : Format F) where
  open format use {general, quoted, unix_milli, is_zero}

  -- The labels but for the first, each after a comma.
  unfoldable pub more_labels : List Label → String
  more_labels [] = ""
  more_labels (l ∷ ls) = "," <> l.name <> "=" <> quoted l.value <> more_labels ls

  unfoldable pub label_text : List Label → String
  unfolding more_labels
  label_text [] = ""
  label_text (l ∷ ls) = "{" <> l.name <> "=" <> quoted l.value <> more_labels ls <> "}"

  unfoldable pub sample_text : MetricSample F → String
  unfolding label_text
  sample_text s =
      s.name
      <> label_text s.labels
      <> " "
      <> general s.value
      <> (if is_zero s.timestamp then "" else " " <> unix_milli s.timestamp)
      <> "\n"
