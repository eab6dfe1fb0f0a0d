-- ===== src/Breaker/Execute.antt =====
-- `Execute` of the circuit breaker (internal/breaker/breaker.go), over any state of the program in
-- which the breaker has its cell. The wrapped function may do anything to that state, which covers
-- what other goroutines do to the breaker while it runs.
use goshield_bootcamp.Base.Go.{
  Clock, panicked, Proc, GoError, Outcome, since, IsCell, inc64, Cell, Time, returned,
}
use goshield_bootcamp.Base.Float.{Float64}
use goshield_bootcamp.Breaker.Core.{CircuitBreaker, before_call}
use goshield_bootcamp.Breaker.Invariant.{after_call-IsValid, IsValid}
use goshield_bootcamp.Breaker.Calls.{after_call, reject}
use goshield_bootcamp.Base.{ap, ◌∙◌, ◌≡◌, none, some}

module _ {ℓ κ μ} {F : Type ℓ} (float : Float64 F) {S : Type κ} {A : Type μ}
    (cell : Cell S CircuitBreaker) (clock : Clock S) where
  unfoldable pub finish : Time → Outcome A → Proc S (Outcome A)
  unfolding after_call
  finish start r s =
      let (end', s₁) = clock s in
      let (now, s₂) = clock s₁ in
      elim (after_call float now r.1 (since end' start) (cell.get s₂)) [
        | none ↦ panicked s₂
        | some cb ↦ returned r (cell.put cb s₂)
      ]

  -- A panic of `fn` unwinds with no call of `afterCall`.
  unfoldable pub call : Proc S (Outcome A) → Proc S (Outcome A)
  unfolding finish
  call fn s =
      let (start, s₁) = clock s in
      elim (fn s₁) [ returned r s₂ ↦ finish start r s₂ | panicked s₂ ↦ panicked s₂ ]

  unfoldable pub execute : Proc S (Outcome A) → Proc S (Outcome A)
  unfolding before_call reject call
  execute fn s =
      let (now, s₁) = clock s in
      let (err, cb) = before_call now (cell.get s₁) in
      let s₂ = cell.put cb s₁ in
      elim err [
        | some e ↦ returned (none, some e) (cell.put (reject (cell.get s₂)) s₂)
        | none ↦ call fn s₂
      ]

  -- A call that beforeCall refuses returns its error and no value, whatever the wrapped function
  -- is, which is not run; and it is counted in total_rejected.
  pub execute_refused :
      IsCell cell
      → (fn : Proc S (Outcome A)) (s : S) (e : GoError)
      → (before_call (clock s).0 (cell.get (clock s).1)).0 ≡ some e
      → (s' : S) × (execute fn s ≡ returned (none, some e) s')
        × ((cell.get s').total_rejected
            ≡ inc64 (before_call (clock s).0 (cell.get (clock s).1)).1.total_rejected)
  unfolding execute
  execute_refused lens fn s e h =
      let b = before_call (clock s).0 (cell.get (clock s).1) in
      let s₂ = cell.put b.1 (clock s).1 in
      (
        cell.put (reject (cell.get s₂)) s₂,
        rw (h, execute),
        ap (λ c. c.total_rejected) (lens (reject (cell.get s₂)) s₂)
            ∙ ap (λ c. inc64 c.total_rejected) (lens b.1 (clock s).1),
      )

  -- What an admitted call returns is what the wrapped function returns, where the breaker is valid
  -- when it does.
  pub execute_admitted :
      (fn : Proc S (Outcome A)) (s s' : S) (r : Outcome A)
      → (before_call (clock s).0 (cell.get (clock s).1)).0 ≡ none
      → fn (clock (cell.put (before_call (clock s).0 (cell.get (clock s).1)).1 (clock s).1)).1
        ≡ returned r s'
      → IsValid (cell.get (clock (clock s').1).1)
      → (s'' : S) × (execute fn s ≡ returned r s'')
  unfolding execute
  execute_admitted fn s s' r h k v =
      let s₂ = (clock (clock s').1).1 in
      let (cb, e, _) =
        after_call-IsValid float (clock (clock s').1).0 r.1
          (since (clock s').0
            (clock (cell.put (before_call (clock s).0 (cell.get (clock s).1)).1 (clock s).1)).0)
          (cell.get s₂) v in
      (cell.put cb s₂, rw (h, execute) (rw (k, call) (rw (e, finish))))
