-- ===== src/Fallback.antt =====
-- Fallbacks, internal/fallback/fallback.go, over any state of the program.
use goshield_bootcamp.Base.Go.{Proc, Outcome, GoError, panicked, Exit, returned}
use goshield_bootcamp.Base.{◌≡◌, refl, Option, none, some}

-- `go config.OnFallback(err)` acts on the state by `on_fallback`.
pub record Config {ℓ μ} (S : Type ℓ) (A : Type μ) : Type (ℓ ⊔ μ) where
  pub fallback : Option (GoError → Proc S (Outcome A))
  pub on_fallback : Option (GoError → S → S)

module _ {ℓ μ} {S : Type ℓ} {A : Type μ} where
  abbrev pub spawn_on_fallback : Config S A → GoError → S → S
  spawn_on_fallback c e s = elim c.on_fallback [ none ↦ s | some f ↦ f e s ]

  unfoldable pub recover : Config S A → GoError → Proc S (Outcome A)
  recover c e s = elim c.fallback [
    | none ↦ returned (none, some e) s
    | some f ↦ f e (spawn_on_fallback c e s)
  ]

  unfoldable pub respond : Config S A → Exit S (Outcome A) → Exit S (Outcome A)
  unfolding recover
  respond c (panicked s) = panicked s
  respond c (returned (v, none) s) = returned (v, none) s
  respond c (returned (v, some e) s) = recover c e s

  unfoldable pub execute : Config S A → Proc S (Outcome A) → Proc S (Outcome A)
  unfolding respond
  execute c fn s = respond c (fn s)

  -- Every way in which the run can end is without an error.
  abbrev pub Succeeds : Exit S (Outcome A) → Type 0
  Succeeds (panicked s) = Unit
  Succeeds (returned r s) = r.1 ≡ none

  respond-Succeeds :
      (c : Config S A) (f : GoError → Proc S (Outcome A))
      → c.fallback ≡ some f
      → ((e : GoError) (s : S) → Succeeds (f e s))
      → (x : Exit S (Outcome A)) → Succeeds (respond c x)
  unfolding respond
  respond-Succeeds c f h k (panicked s) = tt
  respond-Succeeds c f h k (returned (v, none) s) = refl
  respond-Succeeds c f h k (returned (v, some e) s) =
      rw (h, recover) (k e (spawn_on_fallback c e s))

  -- With a fallback that itself returns no error, Execute returns none, whatever the function does;
  -- either may still panic.
  execute-Succeeds :
      (c : Config S A) (f : GoError → Proc S (Outcome A))
      → c.fallback ≡ some f
      → ((e : GoError) (s : S) → Succeeds (f e s))
      → (fn : Proc S (Outcome A)) (s : S) → Succeeds (execute c fn s)
  unfolding execute
  execute-Succeeds c f h k fn s = respond-Succeeds c f h k (fn s)
