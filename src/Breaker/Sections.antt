-- ===== src/Breaker/Sections.antt =====
-- What a run of `Execute` does to its breaker, as a history of critical sections
-- (internal/breaker/breaker.go).
use goshield_bootcamp.Breaker.Core.{CircuitBreaker, before_call, new}
use goshield_bootcamp.Breaker.Config.{Config}
use goshield_bootcamp.Breaker.Calls.{after_call, reject}
use goshield_bootcamp.Breaker.Execute.{execute, call, finish}
use goshield_bootcamp.Breaker.Trace.{Op, run, step}
use goshield_bootcamp.Breaker.Invariant.{
  IsValid, run_from-IsValid, after_call-IsValid, before_call-IsValid,
}
use goshield_bootcamp.Bulkhead.Execute.{end_of}
use goshield_bootcamp.Base.Go.{
  Exit-cases, Cell, IsCell, Clock, Exit, Proc, Outcome, returned, panicked, GoError, since, Time,
  Duration,
}
use goshield_bootcamp.Base.Float.{Float64}
use mathlib.Core.Path.{subst}
use mathlib.Core.Option.{some-injective}
use goshield_bootcamp.Base.{
  ◌≡◌, refl, ap, sym, ◌∙◌, Option, none, some, List, [], ◌∷◌, ◌++◌, arith, Option-cases, inl, inr,
}

module _ {ℓ} {F : Type ℓ} (float : Float64 F) where
  -- A history and then another.
  pub run-append :
      (ops more : List Op) (cb cb' : CircuitBreaker)
      → run float ops cb ≡ some cb'
      → run float (ops ++ more) cb ≡ run float more cb'
  unfolding run
  run-append [] more cb cb' h = ap (run float more) (ground arith)
  run-append (op ∷ ops) more cb cb' h = elim (Option-cases (step float op cb)) [
    | inl crash ↦ absurd (ground arith)
    | inr (cb₁, e) ↦ rw (e, run) (run-append ops more cb₁ cb' (ground arith))
  ]

  -- The states of a breaker that histories reach.
  abbrev pub HasHistory : Config → CircuitBreaker → Type 0
  HasHistory c cb = (ops : List Op) × (run float ops (new c) ≡ some cb)

  pub HasHistory-run :
      (c : Config) (cb cb' : CircuitBreaker) (more : List Op)
      → HasHistory c cb
      → run float more cb ≡ some cb'
      → HasHistory c cb'
  HasHistory-run c cb cb' more (ops, h) k = (ops ++ more, run-append ops more (new c) cb h ∙ k)

  pub run_before :
      (now : Time) (more : List Op) (cb : CircuitBreaker)
      → run float (Op.before now ∷ more) cb ≡ run float more (before_call now cb).1
  unfolding run step
  run_before now more cb = refl

  pub run_rejects : (cb : CircuitBreaker) → run float (Op.rejects ∷ []) cb ≡ some (reject cb)
  unfolding run step
  run_rejects cb = refl

  pub run_after :
      (now : Time) (err : Option GoError) (d : Duration) (cb cb' : CircuitBreaker)
      → after_call float now err d cb ≡ some cb'
      → run float (Op.after now err d ∷ []) cb ≡ some cb'
  unfolding run step
  run_after now err d cb cb' h = rw (h, run) refl

module _ {ℓ κ} {F : Type ℓ} (float : Float64 F) {S : Type κ} (cell : Cell S CircuitBreaker) where
  -- The history takes the breaker from one state of the program to another.
  abbrev pub Leads : List Op → S → S → Type 0
  Leads ops s t = run float ops (cell.get s) ≡ some (cell.get t)

-- The critical sections of a run of Execute: the answer of beforeCall, the history that the wrapped
-- function itself makes, the reading of the clock before it, and how it ends.
abbrev pub sections {ℓ μ} :
    {S : Type ℓ} {A : Type μ}
    → Time
    → Option GoError
    → List Op
    → Time
    → Clock S
    → Exit S (Outcome A)
    → List Op
sections now (some e) ops began clock x = Op.before now ∷ Op.rejects ∷ []
sections now none ops began clock (panicked t) = Op.before now ∷ ops
sections now none ops began clock (returned r t) =
    Op.before now ∷ (ops ++ Op.after (clock (clock t).1).0 r.1 (since (clock t).0 began) ∷ [])

-- What beforeCall answers to a run of Execute, the reading of the clock before the function, and
-- the state that the function is called in.
unfoldable pub admission {ℓ} :
    {S : Type ℓ} → Cell S CircuitBreaker → Clock S → S → Option GoError × Time × S
unfolding before_call
admission cell clock s =
    let s₁ = (clock s).1 in
    let b = before_call (clock s).0 (cell.get s₁) in
    let (began, s₃) = clock (cell.put b.1 s₁) in (b.0, began, s₃)

module _ {ℓ κ μ} {F : Type ℓ} (float : Float64 F) {S : Type κ} {A : Type μ}
    (cell : Cell S CircuitBreaker) (clock : Clock S) where
  finish_history :
      IsCell cell
      → ((s : S) → cell.get (clock s).1 ≡ cell.get s)
      → (began : Time) (r : Outcome A) (s : S) → IsValid (cell.get s)
      → Leads float cell
          (Op.after (clock (clock s).1).0 r.1 (since (clock s).0 began) ∷ [])
          s
          (end_of (finish float cell clock began r s))
  unfolding finish
  finish_history lens apart began r s v =
      let s₂ = (clock (clock s).1).1 in
      let same = apart (clock s).1 ∙ apart s in
      let now = (clock (clock s).1).0 in
      let d = since (clock s).0 began in
      let (cb, e, _) = after_call-IsValid float now r.1 d (cell.get s) v in
      let e' = subst (λ b. after_call float now r.1 d b ≡ some cb) (sym same) e in
      rw (e', finish) (rw (lens cb s₂) (run_after float now r.1 d (cell.get s) cb e))

  call_history :
      IsCell cell
      → ((s : S) → cell.get (clock s).1 ≡ cell.get s)
      → (fn : Proc S (Outcome A)) (s : S) → IsValid (cell.get s)
      → (ops : List Op) → Leads float cell ops (clock s).1 (end_of (fn (clock s).1))
      → ((t : S)
          → fn (clock s).1 ≡ panicked t
          → Leads float cell ops s (end_of (call float cell clock fn s)))
        × ((r : Outcome A) (t : S)
            → fn (clock s).1 ≡ returned r t
            → Leads float cell
                (ops ++ Op.after (clock (clock t).1).0 r.1 (since (clock t).0 (clock s).0) ∷ [])
                s
                (end_of (call float cell clock fn s)))
  unfolding call
  call_history lens apart fn s v ops h =
      let found = ap (run float ops) (sym (apart s)) ∙ h in
      (
        λ t p. rw (p, call) (found ∙ ap (λ x. some (cell.get (end_of x))) p),
        λ r t p.
            let led = found ∙ ap (λ x. some (cell.get (end_of x))) p in
            let (cb, e, w) = run_from-IsValid float ops (cell.get s) v in
            let valid = subst IsValid (some-injective cb (cell.get t) (sym e ∙ led)) w in
            rw (p, call)
              (run-append float ops _ (cell.get s) (cell.get t) led
                ∙ finish_history lens apart (clock s).0 r t valid),
      )

  execute-cases :
      IsCell cell
      → ((s : S) → cell.get (clock s).1 ≡ cell.get s)
      → (fn : Proc S (Outcome A)) (s : S) → IsValid (cell.get (clock s).1)
      → let now = (clock s).0 in
        let s₁ = (clock s).1 in
        let b = before_call now (cell.get s₁) in
        let (began, s₃) = clock (cell.put b.1 s₁) in
        let ended = end_of (execute float cell clock fn s) in
        ((e : GoError) → b.0 ≡ some e → Leads float cell (Op.before now ∷ Op.rejects ∷ []) s₁ ended)
        × ((ops : List Op)
            → b.0 ≡ none
            → Leads float cell ops s₃ (end_of (fn s₃))
            → ((t : S) → fn s₃ ≡ panicked t → Leads float cell (Op.before now ∷ ops) s₁ ended)
              × ((r : Outcome A) (t : S)
                  → fn s₃ ≡ returned r t
                  → Leads float cell
                      (Op.before now
                        ∷ (ops
                            ++ Op.after (clock (clock t).1).0 r.1 (since (clock t).0 began) ∷ []))
                      s₁
                      ended))
  unfolding execute
  execute-cases lens apart fn s v =
      let now = (clock s).0 in
      let s₁ = (clock s).1 in
      let b = before_call now (cell.get s₁) in
      let s₂ = cell.put b.1 s₁ in
      let start = λ (more : List Op).
        run_before float now more (cell.get s₁) ∙ ap (run float more) (sym (lens b.1 s₁)) in
      let valid = subst IsValid (sym (lens b.1 s₁)) (before_call-IsValid now (cell.get s₁) v) in
      (
        λ e refused.
            rw (refused, execute)
              (start (Op.rejects ∷ [])
                ∙ run_rejects float (cell.get s₂)
                ∙ ap some (sym (lens (reject (cell.get s₂)) s₂))),
        λ ops admitted h.
            let (panics, returns) = call_history lens apart fn s₂ valid ops h in
            (
              λ t p. rw (admitted, execute) (start ops ∙ panics t p),
              λ r t p. rw (admitted, execute) (start _ ∙ returns r t p),
            ),
      )

  -- Where the clock leaves the breaker as it is, a run of Execute on a valid breaker is a history
  -- of it, from the first reading of the clock on. A call that is refused is `before` and
  -- `rejects`; one that is admitted is `before`, what the wrapped function itself does to the
  -- breaker, and `after`, with the readings of the clock, the error and the time that it took; and
  -- if the function panics, `after` is missing.
  pub execute_history :
      IsCell cell
      → ((s : S) → cell.get (clock s).1 ≡ cell.get s)
      → (fn : Proc S (Outcome A)) (s : S) → IsValid (cell.get (clock s).1)
      → (ops : List Op)
      → let (answer, began, s₃) = admission cell clock s in
        (answer ≡ none → Leads float cell ops s₃ (end_of (fn s₃)))
        → Leads float cell
            (sections (clock s).0 answer ops began clock (fn s₃))
            (clock s).1
            (end_of (execute float cell clock fn s))
  unfolding admission
  execute_history lens apart fn s v ops h =
      let s₁ = (clock s).1 in
      let b = before_call (clock s).0 (cell.get s₁) in
      let s₃ = (clock (cell.put b.1 s₁)).1 in
      let (refused, admitted) = execute-cases lens apart fn s v in
      elim (Option-cases b.0) [
        | inl free ↦
            let (panics, returns) = admitted ops free (h free) in
            elim (Exit-cases (fn s₃)) [
              | inl (t, p) ↦ rw (free, p) (panics t p)
              | inr (r, t, p) ↦ rw (free, p) (returns r t p)
            ]
        | inr (e, busy) ↦ rw (busy) (refused e busy)
      ]
