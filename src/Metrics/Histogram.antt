-- ===== src/Metrics/Histogram.antt =====
-- Counters, gauges and histograms (internal/metrics/collector.go, internal/metrics/atomic.go).
use native.Mathlib.Nat.{add_assoc}
use goshield_bootcamp.Base.Float.{Float64}
use goshield_bootcamp.Base.Int.{negsuc, ℤ, wrap64, pos, ◌+ℤ◌}
use goshield_bootcamp.Base.{
  ap, ◌∙◌, length, ℕ, ◌+◌, ◌%◌, ◌≡◌, refl, List, [], ◌∷◌, map, arith, if◌then◌else◌,
}
use goshield_bootcamp.Base.Go.{u64_mod, inc64}

-- SimpleCounter is its value, a uint64.
unfoldable pub counter_add : ℕ → ℕ → ℕ
counter_add n value = (value + n) % u64_mod

-- SimpleGauge is its value, an int64.
unfoldable pub gauge_add : ℤ → ℤ → ℤ
gauge_add delta value = wrap64 (value +ℤ delta)

abbrev pub gauge_inc : ℤ → ℤ
unfolding gauge_add
gauge_inc = gauge_add (pos 1)

abbrev pub gauge_dec : ℤ → ℤ
unfolding gauge_add
gauge_dec = gauge_add (negsuc 0)

pub record HistogramBucket {ℓ} (F : Type ℓ) : Type ℓ where
  pub upper_bound : F
  pub count : ℕ

pub record SimpleHistogram {ℓ} (F : Type ℓ) : Type ℓ where
  pub buckets : List (HistogramBucket F)
  pub sum : F
  pub count : ℕ

zero_plus : (n : ℕ) → 0 + n ≡ n
zero_plus n = omega arith

plus_zero : (n : ℕ) → n ≡ n + 0
plus_zero n = omega arith

module _ {ℓ} {F : Type ℓ} (float : Float64 F) where
  open float use {of_uint, add, le}

  unfoldable pub new_simple_histogram : List F → SimpleHistogram F
  new_simple_histogram upper_bounds = record {
    buckets = map (λ ub. record { upper_bound = ub; count = 0 }) upper_bounds;
    sum = of_uint 0;
    count = 0;
  }

  abbrev pub observe_bucket : F → HistogramBucket F → HistogramBucket F
  observe_bucket v b = if le v b.upper_bound then record b { count = inc64 b.count } else b

  unfoldable pub observe : F → SimpleHistogram F → SimpleHistogram F
  observe v h = record {
    buckets = map (observe_bucket v) h.buckets;
    sum = add h.sum v;
    count = inc64 h.count;
  }

  -- The values observed in turn.
  unfoldable pub observe_all : List F → SimpleHistogram F → SimpleHistogram F
  unfolding observe
  observe_all [] h = h
  observe_all (v ∷ vs) h = observe_all vs (observe v h)

  -- How many of the values are not above a bound.
  abbrev pub count_le : F → List F → ℕ
  count_le b [] = 0
  count_le b (v ∷ vs) = (if le v b then 1 else 0) + count_le b vs

  -- The buckets of the bounds, with the counts that `f` gives, in 64 bits.
  abbrev pub tally : (F → ℕ) → List F → List (HistogramBucket F)
  tally f ubs = map (λ ub. record { upper_bound = ub; count = f ub % u64_mod }) ubs

  observe_tally :
      (v : F) (f : F → ℕ) (ubs : List F)
      → map (observe_bucket v) (tally f ubs) ≡ tally (λ ub. f ub + (if le v ub then 1 else 0)) ubs
  observe_tally v f [] = refl
  observe_tally v f (ub ∷ ubs) =
      let here : observe_bucket v (record { upper_bound = ub; count = f ub % u64_mod })
          ≡ record { upper_bound = ub; count = (f ub + (if le v ub then 1 else 0)) % u64_mod } =
        ground arith in
      λ i. here i ∷ observe_tally v f ubs i

  observe_all-tally :
      (vs ubs : List F) (f : F → ℕ) (h : SimpleHistogram F) (n : ℕ)
      → h.buckets ≡ tally f ubs
      → h.count ≡ n % u64_mod
      → ((observe_all vs h).buckets ≡ tally (λ ub. f ub + count_le ub vs) ubs)
        × ((observe_all vs h).count ≡ (n + length vs) % u64_mod)
  unfolding observe_all
  observe_all-tally [] ubs f h n e k =
      (e ∙ (λ i. tally (λ ub. plus_zero (f ub) i) ubs), omega arith)
  observe_all-tally (v ∷ vs) ubs f h n e k =
      let (p, q) =
        observe_all-tally vs ubs (λ ub. f ub + (if le v ub then 1 else 0)) (observe v h) (n + 1)
          (ap (map (observe_bucket v)) e ∙ observe_tally v f ubs) (omega arith) in
      (
        p ∙ (λ i. tally (λ ub. add_assoc (f ub) (if le v ub then 1 else 0) (count_le ub vs) i) ubs),
        q ∙ omega arith,
      )

  -- After any values observed by a new histogram, each bucket counts the values that are not above
  -- its bound, and the histogram counts all of them, modulo 2 ^ 64.
  pub observe_all-new_simple_histogram :
      (vs ubs : List F)
      → let h = observe_all vs (new_simple_histogram ubs) in
        (h.buckets ≡ tally (λ ub. count_le ub vs) ubs) × (h.count ≡ length vs % u64_mod)
  unfolding new_simple_histogram
  observe_all-new_simple_histogram vs ubs =
      let (p, q) = observe_all-tally vs ubs (λ ub. 0) (new_simple_histogram ubs) 0 refl refl in
      (p ∙ (λ i. tally (λ ub. zero_plus (count_le ub vs) i) ubs), omega (arith, q))
