-- ===== src/Metrics/Exposition.antt =====
-- The text of an exposition (internal/metrics/collector.go, internal/metrics/handler.go): the
-- function that writes it, against the lines of a document of three kinds.
pub mod Document
use goshield_bootcamp.Metrics.Registry.{Registry, gather}
use goshield_bootcamp.Metrics.Labels.{sample_text, Format}
use goshield_bootcamp.Metrics.Names.{is_among}
use goshield_bootcamp.Metrics.Sample.{type_string, MetricType, MetricSample}
use goshield_bootcamp.Base.Go.{Time, Clock}
use goshield_bootcamp.Base.{
  ℕ, Bool, true, ◌&&◌, Option, none, some, List, [], ◌∷◌, ◌++◌, if◌then◌else◌,
}
use Prim.Native.String.{String, len, ◌++◌ as ◌<>◌}
use text.Mathlib.Text.{◌==◌}

module _ {ℓ} {F : Type ℓ} where
  -- The lines `# HELP` and `# TYPE`.
  unfoldable pub head_text : MetricSample F → String
  unfolding type_string
  head_text s =
      (if s.help == "" then "" else "# HELP " <> s.name <> " " <> s.help <> "\n")
      <> ("# TYPE " <> s.name <> " " <> type_string s.kind <> "\n")

  -- The loop of PrometheusTextFormat; `seen` is the map of the names that have had their lines.
  unfoldable pub text_from : Format F → List String → List (MetricSample F) → String
  unfolding head_text sample_text
  text_from format seen [] = ""
  text_from format seen (s ∷ ss) =
      if is_among s.name seen
      then sample_text format s <> text_from format seen ss
      else head_text s <> (sample_text format s <> text_from format (s.name ∷ seen) ss)

  -- `len(samples) == 0` first.
  unfoldable pub prometheus_text : Format F → List (MetricSample F) → String
  unfolding text_from
  prometheus_text format [] = ""
  prometheus_text format (s ∷ ss) = text_from format [] (s ∷ ss)

module _ {ℓ κ} {F : Type ℓ} {S : Type κ} where
  unfoldable pub prometheus_text_format : Format F → Registry S F → S → String × S
  unfolding prometheus_text gather
  prometheus_text_format format r s =
      let (samples, s') = gather r s in (prometheus_text format samples, s')

  -- `TakeSnapshot`: the reading of the clock and the samples.
  unfoldable pub take_snapshot : Clock S → Registry S F → S → (Time × List (MetricSample F)) × S
  unfolding gather
  take_snapshot clock r s =
      let (now, s₁) = clock s in let (samples, s₂) = gather r s₁ in ((now, samples), s₂)

-- The answer of ServeHTTP besides its three fixed headers: the status, the header Content-Length
-- and what is written, if anything is.
pub record Answer : Type 0 where
  pub status : ℕ
  pub content_length : ℕ
  pub written : Option String

unfoldable pub answer_of : String → Answer
answer_of text =
    if text == ""
    then record { status = 200; content_length = 0; written = none }
    else record { status = 200; content_length = len text; written = some text }

module _ {ℓ κ} {F : Type ℓ} {S : Type κ} where
  unfoldable pub serve_metrics : Format F → Registry S F → S → Answer × S
  unfolding prometheus_text_format answer_of
  serve_metrics format r s =
      let (text, s') = prometheus_text_format format r s in (answer_of text, s')

-- A line of a document.
pub data Line {ℓ} (F : Type ℓ) : Type ℓ where
  help_line : String → String → Line F
  type_line : String → MetricType → Line F
  sample_line : MetricSample F → Line F

module _ {ℓ} {F : Type ℓ} where
  unfoldable pub line_text : Format F → Line F → String
  unfolding sample_text type_string
  line_text format (help_line n h) = "# HELP " <> n <> " " <> h <> "\n"
  line_text format (type_line n t) = "# TYPE " <> n <> " " <> type_string t <> "\n"
  line_text format (sample_line s) = sample_text format s

  unfoldable pub render : Format F → List (Line F) → String
  unfolding line_text
  render format [] = ""
  render format (l ∷ ls) = line_text format l <> render format ls

  -- The document of samples.
  unfoldable pub document : List String → List (MetricSample F) → List (Line F)
  document seen [] = []
  document seen (s ∷ ss) =
      if is_among s.name seen
      then sample_line s ∷ document seen ss
      else (if s.help == "" then [] else help_line s.name s.help ∷ [])
        ++ (type_line s.name s.kind ∷ sample_line s ∷ document (s.name ∷ seen) ss)

  -- The samples that a document holds, and the names that it gives a type.
  unfoldable pub samples_of : List (Line F) → List (MetricSample F)
  samples_of [] = []
  samples_of (sample_line s ∷ ls) = s ∷ samples_of ls
  samples_of (_ ∷ ls) = samples_of ls

  unfoldable pub typed_names : List (Line F) → List String
  typed_names [] = []
  typed_names (type_line n t ∷ ls) = n ∷ typed_names ls
  typed_names (_ ∷ ls) = typed_names ls

  -- Each sample comes after a line with the type of its name, or its name is in the list.
  unfoldable pub is_declared : List String → List (Line F) → Bool
  is_declared known [] = true
  is_declared known (help_line n h ∷ ls) = is_declared known ls
  is_declared known (type_line n t ∷ ls) = is_declared (n ∷ known) ls
  is_declared known (sample_line s ∷ ls) = is_among s.name known && is_declared known ls
