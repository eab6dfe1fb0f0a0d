-- ===== src/Breaker/Totals.antt =====
-- What the totals of the circuit breaker count (internal/breaker/breaker.go): they refine a ledger
-- of the history, whatever the windows, the transitions and Reset do in between.
use goshield_bootcamp.Base.Float.{Float64}
use goshield_bootcamp.Base.Int.{leb_ℤ}
use mathlib.Core.Option.{some-injective, none-ne-some}
use goshield_bootcamp.Base.Go.{Duration, GoError, inc64_if, inc64, since, u64_mod, Time}
use goshield_bootcamp.Breaker.Calls.{
  count_totals, after_call, reject, force_open, trips, settle, reset, check_thresholds, is_slow,
  failed_by,
}
use goshield_bootcamp.Breaker.Core.{
  new, before_call, check_half_open_success, count_result, get_state_unsafe, CircuitBreaker,
  write_ring, enter, record_result, transition_to, put_result, admit,
}
use goshield_bootcamp.Base.{
  true, false, Option, none, sym, ap, ◌∙◌, ◌&&◌, arith, leb, Option-cases, ℕ, ◌+◌, ◌%◌, ◌≡◌, refl,
  inl, inr, Bool, not, some, List, [], ◌∷◌, if◌then◌else◌, Bool-cases,
}
use goshield_bootcamp.Breaker.Config.{
  with_defaults, state_forced_open, same_state, state_closed, State, state_disabled,
  state_half_open, state_open, Config,
}
use goshield_bootcamp.Breaker.Trace.{
  run, observes, after, rejects, Op, step, before, resets, forces,
}

-- The fields that count for good, with the configuration.
pub record Totals : Type 0 where
  pub config : Config
  pub calls : ℕ
  pub failures : ℕ
  pub successes : ℕ
  pub slow : ℕ
  pub rejected : ℕ

abbrev pub totals : CircuitBreaker → Totals
totals cb = record {
  config = cb.config;
  calls = cb.total_calls_all;
  failures = cb.total_failures;
  successes = cb.total_successes;
  slow = cb.total_slow_calls;
  rejected = cb.total_rejected;
}

-- The ledger: numbers that do not wrap.
pub record Ledger : Type 0 where
  pub failed : ℕ
  pub succeeded : ℕ
  pub slow : ℕ
  pub rejected : ℕ

abbrev pub tally : Bool → ℕ → ℕ
tally b n = if b then n + 1 else n

-- A section enters the outcome of a call, or a refusal, or nothing.
unfoldable pub enter_op : Config → Op → Ledger → Ledger
enter_op c (after now err duration) l = record l {
  failed = tally (failed_by c.is_successful err) l.failed;
  succeeded = tally (not (failed_by c.is_successful err)) l.succeeded;
  slow = tally (is_slow c duration) l.slow;
}
enter_op c rejects l = record l { rejected = l.rejected + 1 }
enter_op c _ l = l

unfoldable pub ledger_of : Config → List Op → Ledger → Ledger
unfolding enter_op
ledger_of c [] l = l
ledger_of c (op ∷ ops) l = ledger_of c ops (enter_op c op l)

abbrev pub empty_ledger : Ledger
empty_ledger = record { failed = 0; succeeded = 0; slow = 0; rejected = 0 }

-- The totals that a ledger stands for.
abbrev pub wrapped : Config → Ledger → Totals
wrapped c l = record {
  config = c;
  calls = (l.failed + l.succeeded) % u64_mod;
  failures = l.failed % u64_mod;
  successes = l.succeeded % u64_mod;
  slow = l.slow % u64_mod;
  rejected = l.rejected % u64_mod;
}

totals-enter :
    (to : State) (now : Time) (cb : CircuitBreaker) → totals (enter to now cb) ≡ totals cb
unfolding enter
totals-enter state_closed now cb = refl
totals-enter state_open now cb = refl
totals-enter state_half_open now cb = refl
totals-enter state_disabled now cb = refl
totals-enter state_forced_open now cb = refl

totals-transition_to :
    (now : Time) (to : State) (cb : CircuitBreaker) → totals (transition_to now to cb) ≡ totals cb
unfolding transition_to
totals-transition_to now to cb = elim (Bool-cases (same_state cb.state to)) [
  | inl same ↦ rw same
  | inr differs ↦ rw differs (totals-enter to now _)
]

totals-get_state_unsafe :
    (now : Time) (cb : CircuitBreaker) → totals (get_state_unsafe now cb) ≡ totals cb
unfolding get_state_unsafe
totals-get_state_unsafe now cb =
    elim (Bool-cases
      (same_state cb.state state_open && leb_ℤ cb.config.timeout (since now cb.open_since))) [
        | inl due ↦ rw due
        | inr rests ↦ rw rests
      ]

totals-admit : (s : State) (cb : CircuitBreaker) → totals (admit s cb).1 ≡ totals cb
unfolding admit
totals-admit state_closed cb = refl
totals-admit state_half_open cb = elim (Bool-cases (leb cb.half_open_allowed cb.half_open_count)) [
  | inl full ↦ rw full
  | inr room ↦ rw room
]
totals-admit state_open cb = refl
totals-admit state_forced_open cb = refl
totals-admit state_disabled cb = refl

totals-record_result :
    (now : Time) (failed slow : Bool) (cb cb' : CircuitBreaker)
    → record_result now failed slow cb ≡ some cb'
    → totals cb' ≡ totals cb
unfolding record_result write_ring put_result count_result
totals-record_result now failed slow cb cb' e = ground arith

totals-check_half_open_success :
    (now : Time) (cb : CircuitBreaker) → totals (check_half_open_success now cb) ≡ totals cb
unfolding check_half_open_success
totals-check_half_open_success now cb =
    elim (Bool-cases (leb cb.half_open_allowed cb.total_calls)) [
      | inl enough ↦ rw enough (totals-transition_to now state_closed cb)
      | inr few ↦ rw few
    ]

totals-before_call : (now : Time) (cb : CircuitBreaker) → totals (before_call now cb).1 ≡ totals cb
unfolding before_call
totals-before_call now cb =
    totals-admit (get_state_unsafe now cb).state (get_state_unsafe now cb)
    ∙ totals-get_state_unsafe now cb

totals-reset : (cb : CircuitBreaker) → totals (reset cb) ≡ totals cb
unfolding reset
totals-reset cb = elim (Bool-cases (same_state cb.state state_closed)) [
  | inl same ↦ rw same
  | inr differs ↦ rw differs
]

totals-force_open : (cb : CircuitBreaker) → totals (force_open cb) ≡ totals cb
unfolding force_open
totals-force_open cb = elim (Bool-cases (same_state cb.state state_forced_open)) [
  | inl same ↦ rw same
  | inr differs ↦ rw differs
]

-- What `settle` does in the half-open state after it has recorded the result.
abbrev judge_probe : Time → Bool → CircuitBreaker → CircuitBreaker
judge_probe now failed cb =
    if failed then transition_to now state_open cb else check_half_open_success now cb

totals-judge_probe :
    (now : Time) (failed : Bool) (cb : CircuitBreaker)
    → totals (judge_probe now failed cb) ≡ totals cb
totals-judge_probe now true cb = totals-transition_to now state_open cb
totals-judge_probe now false cb = totals-check_half_open_success now cb

mapped_some {ℓ μ} :
    {A : Type ℓ} {B : Type μ} (o : Option A) (f : A → B) (b : B)
    → (elim o as (λ x. Option B) [ none ↦ none | some a ↦ some (f a) ]) ≡ some b
    → (a : A) × (o ≡ some a) × (f a ≡ b)
mapped_some none f b e = absurd (none-ne-some b e)
mapped_some (some a) f b e = (a, refl, some-injective _ _ e)

inc64_mod : (n : ℕ) → inc64 (n % u64_mod) ≡ (n + 1) % u64_mod
inc64_mod n = omega arith

-- An outcome on the totals.
abbrev counted : Option GoError → Duration → Totals → Totals
counted err duration t =
    let failed = failed_by t.config.is_successful err in
    record t {
      calls = inc64 t.calls;
      failures = inc64_if failed t.failures;
      successes = inc64_if (not failed) t.successes;
      slow = inc64_if (is_slow t.config duration) t.slow;
    }

counted-wrapped :
    (failed slow : Bool) (c : Config) (l : Ledger)
    → record (wrapped c l) {
      calls = inc64 (wrapped c l).calls;
      failures = inc64_if failed (wrapped c l).failures;
      successes = inc64_if (not failed) (wrapped c l).successes;
      slow = inc64_if slow (wrapped c l).slow;
    }
      ≡ wrapped c (record l {
        failed = tally failed l.failed;
        succeeded = tally (not failed) l.succeeded;
        slow = tally slow l.slow;
      })
counted-wrapped true true c l = ground arith
counted-wrapped true false c l = ground arith
counted-wrapped false true c l = ground arith
counted-wrapped false false c l = ground arith

module _ {ℓ} {F : Type ℓ} (float : Float64 F) where
  totals-check_thresholds :
      (now : Time) (cb : CircuitBreaker) → totals (check_thresholds float now cb) ≡ totals cb
  unfolding check_thresholds
  totals-check_thresholds now cb = elim (Bool-cases (trips float cb)) [
    | inl tripped ↦ rw tripped (totals-transition_to now state_open cb)
    | inr rests ↦ rw rests
  ]

  -- What `settle` does after a recorded result.
  totals-settle :
      (s : State) (now : Time) (failed slow : Bool) (cb cb' : CircuitBreaker)
      → settle float s now failed slow cb ≡ some cb'
      → totals cb' ≡ totals cb
  unfolding settle
  totals-settle state_closed now failed slow cb cb' e =
      let (cb₁, e₁, e₂) =
        mapped_some (record_result now failed slow cb) (check_thresholds float now) cb' e in
      ap totals (sym e₂)
      ∙ totals-check_thresholds now cb₁
      ∙ totals-record_result now failed slow cb cb₁ e₁
  totals-settle state_half_open now failed slow cb cb' e =
      let (cb₁, e₁, e₂) =
        mapped_some (record_result now failed slow cb) (judge_probe now failed) cb' e in
      ap totals (sym e₂)
      ∙ totals-judge_probe now failed cb₁
      ∙ totals-record_result now failed slow cb cb₁ e₁
  totals-settle state_open now failed slow cb cb' e = ap totals (sym (some-injective _ _ e))
  totals-settle state_forced_open now failed slow cb cb' e = ap totals (sym (some-injective _ _ e))
  totals-settle state_disabled now failed slow cb cb' e = ap totals (sym (some-injective _ _ e))

  -- A section takes the totals of a ledger to those of the ledger after it.
  step-wrapped :
      (op : Op) (c : Config) (l : Ledger) (cb cb' : CircuitBreaker)
      → totals cb ≡ wrapped c l
      → step float op cb ≡ some cb'
      → totals cb' ≡ wrapped c (enter_op c op l)
  unfolding step enter_op after_call count_totals reject
  step-wrapped (before now) c l cb cb' h e =
      ap totals (sym (some-injective _ _ e)) ∙ totals-before_call now cb ∙ h
  step-wrapped rejects c l cb cb' h e =
      ap totals (sym (some-injective _ _ e))
      ∙ ap (λ (t : Totals). record t { rejected = inc64 t.rejected }) h
      ∙ ap (λ n. record (wrapped c l) { rejected = n }) (inc64_mod l.rejected)
  step-wrapped (after now err duration) c l cb cb' h e =
      let failed = failed_by cb.config.is_successful err in
      let slow = is_slow cb.config duration in
      let cb₁ = get_state_unsafe now (count_totals failed slow cb) in
      totals-settle cb₁.state now failed slow cb₁ cb' e
      ∙ totals-get_state_unsafe now (count_totals failed slow cb)
      ∙ ap (counted err duration) h
      ∙ counted-wrapped (failed_by c.is_successful err) (is_slow c duration) c l
  step-wrapped (observes now) c l cb cb' h e =
      ap totals (sym (some-injective _ _ e)) ∙ totals-get_state_unsafe now cb ∙ h
  step-wrapped resets c l cb cb' h e = ap totals (sym (some-injective _ _ e)) ∙ totals-reset cb ∙ h
  step-wrapped forces c l cb cb' h e =
      ap totals (sym (some-injective _ _ e)) ∙ totals-force_open cb ∙ h

  run_crash :
      (op : Op) (ops : List Op) (cb : CircuitBreaker)
      → step float op cb ≡ none
      → run float (op ∷ ops) cb ≡ none
  unfolding run
  run_crash op ops cb e = rw (e, run)

  run_on :
      (op : Op) (ops : List Op) (cb cb' : CircuitBreaker)
      → step float op cb ≡ some cb'
      → run float (op ∷ ops) cb ≡ run float ops cb'
  unfolding run
  run_on op ops cb cb' e = rw (e, run)

  run-wrapped :
      (ops : List Op) (c : Config) (l : Ledger) (cb cb' : CircuitBreaker)
      → totals cb ≡ wrapped c l
      → run float ops cb ≡ some cb'
      → totals cb' ≡ wrapped c (ledger_of c ops l)
  unfolding run ledger_of
  run-wrapped [] c l cb cb' h e = ap totals (sym (some-injective _ _ e)) ∙ h
  run-wrapped (op ∷ ops) c l cb cb' h e = elim (Option-cases (step float op cb)) [
    | inl crash ↦ absurd (none-ne-some cb' (sym (run_crash op ops cb crash) ∙ e))
    | inr (cb₁, e₁) ↦
        run-wrapped ops c (enter_op c op l) cb₁ cb' (step-wrapped op c l cb cb₁ h e₁)
          (sym (run_on op ops cb cb₁ e₁) ∙ e)
  ]

  -- Whatever history a new breaker has, with its transitions, its windows and Resets, its totals
  -- are those of a ledger of the history, each modulo 2 ^ 64: every outcome reported to afterCall
  -- is one failure or one success, as IsSuccessful has it, and one slow call if it took longer than
  -- SlowCallDuration; every refusal that Execute counts is one; and nothing else is counted.
  pub run-ledger_of :
      (config : Config) (ops : List Op) (cb : CircuitBreaker)
      → run float ops (new config) ≡ some cb
      → totals cb
        ≡ wrapped (with_defaults config) (ledger_of (with_defaults config) ops empty_ledger)
  unfolding new
  run-ledger_of config ops cb e =
      run-wrapped ops (with_defaults config) empty_ledger (new config) cb refl e
