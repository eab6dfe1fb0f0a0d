-- ===== src/Metrics/Exposition/Document.antt =====
-- The text of an exposition is a document that holds each sample once, and one type for each name
-- (internal/metrics/collector.go).
use mathlib.Core.Path.{subst}
use goshield_bootcamp.Metrics.Labels.{Format}
use goshield_bootcamp.Metrics.Exposition.{
  line_text, document, prometheus_text, render, samples_of, typed_names, is_declared, text_from,
  head_text,
}
use goshield_bootcamp.Metrics.Names.{distinct, is_among}
use goshield_bootcamp.Metrics.Sample.{MetricSample}
use goshield_bootcamp.Base.{
  sym, ◌∙◌, ◌≡◌, refl, ap, inl, inr, true, false, List, [], ◌∷◌, Bool-cases,
}
use Prim.Native.String.{String}
use mathlib.Core.Bool.{false≢true}
use text.Mathlib.Text.{◌==◌}
use text.Mathlib.TextLemmas.{append_assoc, nil-append}
use text.Mathlib.TextPositions.{eq_refl}
use text.Mathlib.TextEquality.{eq_iff}

is_among-more :
    (n m : String) (ms : List String) → is_among n ms ≡ true → is_among n (m ∷ ms) ≡ true
is_among-more n m ms h = elim (Bool-cases (n == m)) [
  | inl same ↦ rw same
  | inr differs ↦ rw (differs, h)
]

differs_from_fresh :
    (n m : String) (ms : List String)
    → is_among n ms ≡ true
    → is_among m ms ≡ false
    → (n == m) ≡ false
differs_from_fresh n m ms h h' = elim (Bool-cases (n == m)) [
  | inl same ↦
      absurd (false≢true (sym h' ∙ subst (λ k. is_among k ms ≡ true) ((eq_iff n m).0 same) h))
  | inr differs ↦ differs
]

module _ {ℓ} {F : Type ℓ} where
  text_from-document :
      (format : Format F) (seen : List String) (ss : List (MetricSample F))
      → text_from format seen ss ≡ render format (document seen ss)
  unfolding text_from render document line_text head_text
  text_from-document format seen [] = refl
  text_from-document format seen (s ∷ ss) = elim (Bool-cases (is_among s.name seen)) [
    | inl old ↦ rw (old, text_from-document format seen ss)
    | inr fresh ↦
        rw (fresh, text_from-document format (s.name ∷ seen) ss)
          (elim (Bool-cases (s.help == "")) [
            | inl bare ↦ rw (bare, nil-append)
            | inr helped ↦ rw helped (append_assoc _ _ _)
          ])
  ]

  samples_of-document :
      (seen : List String) (ss : List (MetricSample F)) → samples_of (document seen ss) ≡ ss
  unfolding samples_of document
  samples_of-document seen [] = refl
  samples_of-document seen (s ∷ ss) = elim (Bool-cases (is_among s.name seen)) [
    | inl old ↦ rw old (ap (◌∷◌ s) (samples_of-document seen ss))
    | inr fresh ↦ rw fresh (elim (Bool-cases (s.help == "")) [
      | inl bare ↦ rw bare (ap (◌∷◌ s) (samples_of-document (s.name ∷ seen) ss))
      | inr helped ↦ rw helped (ap (◌∷◌ s) (samples_of-document (s.name ∷ seen) ss))
    ])
  ]

  is_declared-document :
      (seen : List String) (ss : List (MetricSample F)) → is_declared seen (document seen ss) ≡ true
  unfolding is_declared document
  is_declared-document seen [] = refl
  is_declared-document seen (s ∷ ss) = elim (Bool-cases (is_among s.name seen)) [
    | inl old ↦ rw (old, is_declared-document seen ss) (rw old)
    | inr fresh ↦ rw fresh (elim (Bool-cases (s.help == "")) [
      | inl bare ↦ rw (bare, eq_refl s.name, is_declared-document (s.name ∷ seen) ss)
      | inr helped ↦ rw (helped, eq_refl s.name, is_declared-document (s.name ∷ seen) ss)
    ])
  ]

  -- No name in the list is given a type.
  fresh-document :
      (n : String) (seen : List String) (ss : List (MetricSample F))
      → is_among n seen ≡ true
      → is_among n (typed_names (document seen ss)) ≡ false
  unfolding typed_names document
  fresh-document n seen [] h = refl
  fresh-document n seen (s ∷ ss) h = elim (Bool-cases (is_among s.name seen)) [
    | inl old ↦ rw old (fresh-document n seen ss h)
    | inr fresh ↦
        let other_name = differs_from_fresh n s.name seen h fresh in
        let rest = fresh-document n (s.name ∷ seen) ss (is_among-more n s.name seen h) in
        rw fresh (elim (Bool-cases (s.help == "")) [
          | inl bare ↦ rw (bare, other_name, rest)
          | inr helped ↦ rw (helped, other_name, rest)
        ])
  ]

  typed_names-distinct :
      (seen : List String) (ss : List (MetricSample F))
      → distinct (typed_names (document seen ss)) ≡ true
  unfolding typed_names document
  typed_names-distinct seen [] = refl
  typed_names-distinct seen (s ∷ ss) = elim (Bool-cases (is_among s.name seen)) [
    | inl old ↦ rw old (typed_names-distinct seen ss)
    | inr fresh ↦
        let once = fresh-document s.name (s.name ∷ seen) ss (rw (eq_refl s.name)) in
        rw fresh (elim (Bool-cases (s.help == "")) [
          | inl bare ↦ rw (bare, once, typed_names-distinct (s.name ∷ seen) ss)
          | inr helped ↦ rw (helped, once, typed_names-distinct (s.name ∷ seen) ss)
        ])
  ]

  -- The text that a registry writes for its samples is that of a document which holds these
  -- samples, each once and in their order, gives no name a type twice, and has the type of each
  -- sample's name in a line before it.
  pub prometheus_text-document :
      (format : Format F) (ss : List (MetricSample F))
      → (prometheus_text format ss ≡ render format (document [] ss))
        × (samples_of (document [] ss) ≡ ss)
        × (distinct (typed_names (document [] ss)) ≡ true)
        × (is_declared [] (document [] ss) ≡ true)
  unfolding prometheus_text render document samples_of typed_names is_declared
  prometheus_text-document format [] = (refl, refl, refl, refl)
  prometheus_text-document format (s ∷ ss) = (
    text_from-document format [] (s ∷ ss),
    samples_of-document [] (s ∷ ss),
    typed_names-distinct [] (s ∷ ss),
    is_declared-document [] (s ∷ ss),
  )
