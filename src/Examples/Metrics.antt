-- ===== src/Examples/Metrics.antt =====
-- The metrics at concrete inputs.
use goshield_bootcamp.Metrics.Exposition.Document.{prometheus_text-document}
use goshield_bootcamp.Metrics.Labels.{Format}
use goshield_bootcamp.Metrics.Exposition.{
  prometheus_text, document, render, samples_of, typed_names, is_declared,
}
use Prim.Native.String.{◌++◌ as ◌<>◌}
use goshield_bootcamp.Base.{true, ◌==◌}
use goshield_bootcamp.Examples.Fixed.{fixed}
use goshield_bootcamp.Metrics.Histogram.{
  new_simple_histogram, observe_all, observe_all-new_simple_histogram,
}
use goshield_bootcamp.Metrics.Names.{distinct}
use goshield_bootcamp.Base.Int.{ℤ}
use goshield_bootcamp.Base.{ℕ, ◌≡◌, List, [], ◌∷◌}
use Prim.Native.String.{String}
use goshield_bootcamp.Metrics.Collectors.{collect_retry, RetryNumbers}
use goshield_bootcamp.Metrics.Sample.{MetricSample}

abbrev show : ℤ → String
show state = "7"

abbrev retry_numbers : RetryNumbers
retry_numbers = record { total_attempts = 4; total_successes = 1; total_retries = 0 }

observe_all-new_simple_histogram_example :
    let h = observe_all fixed (3 ∷ 8 ∷ []) (new_simple_histogram fixed (5 ∷ 10 ∷ [])) in
    (h.buckets
      ≡ record { upper_bound = 5; count = 1 } ∷ record { upper_bound = 10; count = 2 } ∷ [])
    × (h.count ≡ 2)
observe_all-new_simple_histogram_example =
    observe_all-new_simple_histogram fixed (3 ∷ 8 ∷ []) (5 ∷ 10 ∷ [])

-- How numbers and strings are written.
abbrev plain : Format ℕ
plain = record {
  general = λ x. "1";
  quoted = λ s. "\"" <> s <> "\"";
  unix_milli = λ t. "9";
  is_zero = λ t. t == 0;
}

abbrev retry_samples : List (MetricSample ℕ)
unfolding collect_retry
retry_samples = collect_retry fixed show "api" retry_numbers 5

prometheus_text-document_example :
    (prometheus_text plain retry_samples ≡ render plain (document [] retry_samples))
    × (samples_of (document [] retry_samples) ≡ retry_samples)
    × (distinct (typed_names (document [] retry_samples)) ≡ true)
    × (is_declared [] (document [] retry_samples) ≡ true)
prometheus_text-document_example = prometheus_text-document plain retry_samples
