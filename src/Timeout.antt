-- ===== src/Timeout.antt =====
-- Timeouts, internal/timeout/timeout.go, over any state of the program. The goroutine that runs the
-- function and the `select` between its result and the end of the context are the runtime's: the
-- parameter `race`.
pub mod Select
use goshield_bootcamp.Base.Go.{
  Exit, u64_mod, Proc, inc64, Outcome, GoError, panicked, inc64_if, Duration, operation_timed_out,
  join, Cell, returned,
}
use goshield_bootcamp.Base.Int.{pos, leb_ℤ}
use goshield_bootcamp.Base.{
  ◌+◌, ◌<◌, inl, inr, arith, Bool-cases, ℕ, ◌≡◌, Bool, true, false, ◌||◌, Option, none, some,
  if◌then◌else◌,
}

-- Which case `select` takes: the function's result, or the end of the context, at the deadline or
-- cancelled with its error.
pub data Raced {ℓ} (A : Type ℓ) : Type ℓ where
  finished : Outcome A → Raced A
  expired : Raced A
  cancelled : GoError → Raced A

abbrev pub Race {ℓ μ} : Type ℓ → Type μ → Type (ℓ ⊔ μ)
Race S A = Duration → Proc S (Outcome A) → Proc S (Raced A)

-- `go config.OnTimeout(duration)` acts on the state by `on_timeout`.
pub record Config {ℓ} (S : Type ℓ) : Type ℓ where
  pub duration : Duration
  pub on_timeout : Option (Duration → S → S)

abbrev pub spawn_on_timeout {ℓ} : {S : Type ℓ} → Config S → S → S
spawn_on_timeout c s = elim c.on_timeout [ none ↦ s | some f ↦ f c.duration s ]

module _ {ℓ μ} {S : Type ℓ} {A : Type μ} where
  -- The cases of `select`.
  unfoldable pub conclude : Config S → Exit S (Raced A) → Exit S (Outcome A)
  conclude c (returned (finished r) s) = returned r s
  conclude c (returned expired s) = returned (none, some operation_timed_out) (spawn_on_timeout c s)
  conclude c (returned (cancelled e) s) = returned (none, some e) (spawn_on_timeout c s)
  conclude c (panicked s) = panicked s

  unfoldable pub execute : Race S A → Config S → Proc S (Outcome A) → Proc S (Outcome A)
  unfolding conclude
  execute race c fn s = if leb_ℤ c.duration (pos 0) then fn s else conclude c (race c.duration fn s)

pub record Timeout : Type 0 where
  pub total_calls : ℕ
  pub total_timeouts : ℕ
  pub total_success : ℕ

-- `errors.Is(err, ErrTimeout)`, through `errors.Join`.
abbrev pub is_timeout : GoError → Bool
is_timeout operation_timed_out = true
is_timeout (join e f) = is_timeout e || is_timeout f
is_timeout _ = false

-- The counters of `Timeout.Execute`, before the call and after it.
unfoldable pub count_call : Timeout → Timeout
count_call t = record t { total_calls = inc64 t.total_calls }

unfoldable pub count_result : Option GoError → Timeout → Timeout
count_result none t = record t { total_success = inc64 t.total_success }
count_result (some e) t = record t { total_timeouts = inc64_if (is_timeout e) t.total_timeouts }

module _ {ℓ μ} {S : Type ℓ} {A : Type μ} (cell : Cell S Timeout) (race : Race S A)
    (c : Config S) where
  unfoldable pub execute_tracked : Proc S (Outcome A) → Proc S (Outcome A)
  unfolding execute count_call count_result
  execute_tracked fn s =
      let s₁ = cell.put (count_call (cell.get s)) s in
      elim (execute race c fn s₁) [
        | returned r s₂ ↦ returned r (cell.put (count_result r.1 (cell.get s₂)) s₂)
        | panicked s₂ ↦ panicked s₂
      ]

-- The runtime hands on what the function returned.
abbrev pub IsRace {ℓ μ} : {S : Type ℓ} {A : Type μ} → Race S A → Type (ℓ ⊔ μ)
IsRace {S} {A} race =
    (d : Duration) (fn : Proc S (Outcome A)) (s s' : S) (r : Outcome A)
    → race d fn s ≡ returned (finished r) s'
    → (t : S) × (fn s ≡ returned r t)

conclude_success {ℓ μ} :
    {S : Type ℓ} {A : Type μ} (c : Config S) (x : Exit S (Raced A)) (s' : S) (v : Option A)
    → conclude c x ≡ returned (v, none) s'
    → (t : S) × (x ≡ returned (finished (v, none)) t)
unfolding conclude
conclude_success c (returned (finished r) s) s' v e = (s, ground arith)
conclude_success c (returned expired s) s' v e = absurd (ground arith)
conclude_success c (returned (cancelled x) s) s' v e = absurd (ground arith)
conclude_success c (panicked s) s' v e = absurd (ground arith)

-- With a runtime that hands on only what the function returned, a result without an error is always
-- the function's own.
pub execute_success {ℓ μ} :
    {S : Type ℓ} {A : Type μ} (race : Race S A) (c : Config S) (fn : Proc S (Outcome A)) (s s' : S)
    (v : Option A)
    → IsRace race
    → execute race c fn s ≡ returned (v, none) s'
    → (t : S) × (fn s ≡ returned (v, none) t)
unfolding execute
execute_success race c fn s s' v h e = elim (Bool-cases (leb_ℤ c.duration (pos 0))) [
  | inl off ↦ (s', ground arith)
  | inr on ↦
      let (t, k) = conclude_success c (race c.duration fn s) s' v (ground arith) in
      h c.duration fn s t (v, none) k
]

-- One call of a tracked timeout whose function leaves the tracker alone counts the call, and counts
-- its result as a success exactly if there is no error, and as a timeout exactly if the error is or
-- wraps ErrTimeout.
pub count_result_lem :
    (err : Option GoError) (t : Timeout)
    → t.total_calls + 1 < u64_mod
    → t.total_success + 1 < u64_mod
    → t.total_timeouts + 1 < u64_mod
    → let t' = count_result err (count_call t) in
      (t'.total_calls ≡ t.total_calls + 1)
      × (t'.total_success ≡ (elim err [ none ↦ t.total_success + 1 | some e ↦ t.total_success ]))
      × (t'.total_timeouts ≡ (elim err [
        | none ↦ t.total_timeouts
        | some e ↦ if is_timeout e then t.total_timeouts + 1 else t.total_timeouts
      ]))
unfolding count_result count_call
count_result_lem none t a b c = ground arith
count_result_lem (some e) t a b c = ground arith
