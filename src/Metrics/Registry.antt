-- ===== src/Metrics/Registry.antt =====
-- The registry (internal/metrics/collector.go) and collectors of collectors
-- (internal/metrics/handler.go).
use Prim.Native.String.{String, ◌++◌ as ◌<>◌}
use text.Mathlib.Text.{◌==◌}
use goshield_bootcamp.Metrics.Sample.{MetricSample, Collector}
use goshield_bootcamp.Base.{List, [], ◌∷◌, ◌++◌, map, ◌≡◌, refl, ap, sym, if◌then◌else◌}

pub record Registry {ℓ μ} (S : Type ℓ) (F : Type μ) : Type (ℓ ⊔ μ) where
  pub collectors : List (Collector S F)
  pub namespace : String

module _ {μ} {F : Type μ} where
  -- `samples[i].Name = r.namespace + "_" + samples[i].Name`
  unfoldable pub prefixed : String → MetricSample F → MetricSample F
  prefixed namespace s =
      if namespace == "" then s else record s { name = namespace <> "_" <> s.name }

  map-append :
      (f : MetricSample F → MetricSample F) (xs ys : List (MetricSample F))
      → map f (xs ++ ys) ≡ map f xs ++ map f ys
  map-append f [] ys = refl
  map-append f (x ∷ xs) ys = ap (◌∷◌ (f x)) (map-append f xs ys)

  append_assoc : (xs ys zs : List (MetricSample F)) → (xs ++ ys) ++ zs ≡ xs ++ (ys ++ zs)
  append_assoc [] ys zs = refl
  append_assoc (x ∷ xs) ys zs = ap (◌∷◌ x) (append_assoc xs ys zs)

  append_nil : (xs : List (MetricSample F)) → xs ++ [] ≡ xs
  append_nil [] = refl
  append_nil (x ∷ xs) = ap (◌∷◌ x) (append_nil xs)

module _ {ℓ μ} {S : Type ℓ} {F : Type μ} where
  -- `NewRegistryWithNamespace`
  unfoldable pub new_registry : String → Registry S F
  new_registry ns = record { collectors = []; namespace = ns }

  unfoldable pub register : Collector S F → Registry S F → Registry S F
  register c r = record r { collectors = r.collectors ++ c ∷ [] }

  -- The loop of Gather.
  unfoldable pub gather_from : String → List (Collector S F) → Collector S F
  unfolding prefixed
  gather_from namespace [] s = ([], s)
  gather_from namespace (c ∷ cs) s =
      let (samples, s₁) = c s in
      let (rest, s₂) = gather_from namespace cs s₁ in (map (prefixed namespace) samples ++ rest, s₂)

  unfoldable pub gather : Registry S F → Collector S F
  unfolding gather_from
  gather r = gather_from r.namespace r.collectors

  -- `MultiCollector.Collect`
  unfoldable pub collect_all : List (Collector S F) → Collector S F
  collect_all [] s = ([], s)
  collect_all (c ∷ cs) s =
      let (samples, s₁) = c s in let (rest, s₂) = collect_all cs s₁ in (samples ++ rest, s₂)

  gather_from-append :
      (ns : String) (cs ds : List (Collector S F)) (s : S)
      → gather_from ns (cs ++ ds) s ≡ (
        (gather_from ns cs s).0 ++ (gather_from ns ds (gather_from ns cs s).1).0,
        (gather_from ns ds (gather_from ns cs s).1).1,
      )
  unfolding gather_from
  gather_from-append ns [] ds s = refl
  gather_from-append ns (c ∷ cs) ds s = rw (gather_from-append ns cs ds (c s).1) (
      ap (λ xs. (xs, (gather_from ns ds (gather_from ns cs (c s).1).1).1))
        (sym (
          append_assoc (map (prefixed ns) (c s).0) (gather_from ns cs (c s).1).0
            (gather_from ns ds (gather_from ns cs (c s).1).1).0)))

  -- What a registry gathers after a registration is what it gathered and then the new
  -- collector's samples under the namespace.
  pub gather-register :
      (r : Registry S F) (c : Collector S F) (s : S)
      → let (held, s₁) = gather r s in
        let (samples, s₂) = c s₁ in
        gather (register c r) s ≡ (held ++ map (prefixed r.namespace) samples, s₂)
  unfolding gather register
  gather-register r c s =
      rw (gather_from-append r.namespace r.collectors (c ∷ []) s)
        (ap (λ xs. ((gather r s).0 ++ xs, (c (gather r s).1).1)) (append_nil _))

  gather_from_lem :
      (ns : String) (cs : List (Collector S F)) (s : S)
      → gather_from ns cs s ≡ (map (prefixed ns) (collect_all cs s).0, (collect_all cs s).1)
  unfolding gather_from collect_all
  gather_from_lem ns [] s = refl
  gather_from_lem ns (c ∷ cs) s = rw (gather_from_lem ns cs (c s).1) (
      ap (λ xs. (xs, (collect_all cs (c s).1).1))
        (sym (map-append (prefixed ns) (c s).0 (collect_all cs (c s).1).0)))

  -- A registry gathers from one MultiCollector, in which there are several collectors, the samples
  -- that it gathers from them one by one, under the same names, and leaves the same state.
  pub gather_from-collect_all :
      (ns : String) (cs : List (Collector S F)) (s : S)
      → gather_from ns (collect_all cs ∷ []) s ≡ gather_from ns cs s
  unfolding gather_from
  gather_from-collect_all ns cs s =
      rw (gather_from_lem ns cs s) (ap (λ xs. (xs, (collect_all cs s).1)) (append_nil _))
