-- ===== src/Resilience/Chain.antt =====
-- Chains of decorators (pkg/resilience/resilience.go), and of HTTP middleware, which has the same
-- loop (pkg/middleware/middleware.go).
use goshield_bootcamp.Base.{
  ℕ, zero, suc, ◌≡◌, refl, sym, ap, ◌∙◌, none, some, List, [], ◌∷◌, ◌++◌, get_elem?, length,
}

module _ {ℓ} {A : Type ℓ} where
  -- The loop from i = k - 1 down to 0; an index out of range does not occur.
  unfoldable pub wrap_loop : ℕ → List (A → A) → A → A
  wrap_loop zero ds wrapped = wrapped
  wrap_loop (suc i) ds wrapped =
      wrap_loop i ds (elim (get_elem? ds i) [ none ↦ wrapped | some d ↦ d wrapped ])

  unfoldable pub chain : List (A → A) → A → A
  unfolding wrap_loop
  chain ds inner = wrap_loop (length ds) ds inner

  wrap_loop-cons :
      (k : ℕ) (d : A → A) (ds : List (A → A)) (inner : A)
      → wrap_loop (suc k) (d ∷ ds) inner ≡ d (wrap_loop k ds inner)
  unfolding wrap_loop
  wrap_loop-cons zero d ds inner = refl
  wrap_loop-cons (suc k) d ds inner =
      wrap_loop-cons k d ds (elim (get_elem? ds k) [ none ↦ inner | some f ↦ f inner ])

  -- The first decorator is the outermost one, and a chain of chains is the chain of all.
  pub chain_order :
      (d : A → A) (ds es : List (A → A)) (inner : A)
      → (chain (d ∷ ds) inner ≡ d (chain ds inner))
        × (chain (ds ++ es) inner ≡ chain ds (chain es inner))
  unfolding chain
  chain_order d ds es inner = (wrap_loop-cons (length ds) d ds inner, chain-append ds)
    where
      chain-append :
          (xs : List (A → A))
          → wrap_loop (length (xs ++ es)) (xs ++ es) inner
            ≡ wrap_loop (length xs) xs (wrap_loop (length es) es inner)
      chain-append [] = refl
      chain-append (x ∷ xs) =
          wrap_loop-cons (length (xs ++ es)) x (xs ++ es) inner
          ∙ ap x (chain-append xs)
          ∙ sym (wrap_loop-cons (length xs) x xs (wrap_loop (length es) es inner))
