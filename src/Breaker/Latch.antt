-- ===== src/Breaker/Latch.antt =====
-- What the adaptive breaker adds (internal/breaker/adaptive.go).
use goshield_bootcamp.Base.Go.{
  Cell, Outcome, IsCell, Clock, Proc, GoError, returned, panicked, open_state, since, u32_mod,
}
use goshield_bootcamp.Base.Float.{Float64}
use goshield_bootcamp.Breaker.Adaptive.{
  AdaptiveBreaker, adapt_threshold, update_emas, is_exceeded, execute_adaptive, track, track_call,
  inner_cell, is_rejection,
}
use goshield_bootcamp.Breaker.Execute.{execute}
use goshield_bootcamp.Breaker.Calls.{force_open}
use goshield_bootcamp.Base.{
  ℕ, suc, arith, ◌+◌, ◌<◌, ◌≡◌, refl, ap, true, false, Option, none, some, List, [], ◌∷◌, All,
  replicate,
}

module _ {ℓ} {F : Type ℓ} (float : Float64 F) where
  open float use {lt, le}

  -- float64: nothing is below itself, and of two values that are not NaN, which are those not above
  -- themselves, the second is not above the first if the first is not below the second.
  pub record IsOrdered : Type ℓ where
    pub lt_irrefl : (x : F) → lt x x ≡ false
    pub le_of_lt : (x y : F) → le x x ≡ true → le y y ≡ true → lt x y ≡ false → le y x ≡ true

  clamped :
      (ab : AdaptiveBreaker F)
      → ((x : F) → lt x x ≡ false)
      → lt ab.config.max_failure_rate_threshold ab.config.min_failure_rate_threshold ≡ false
      → 0 < ab.window_calls
      → let t = (update_emas float ab).current_threshold in
        (lt t ab.config.min_failure_rate_threshold ≡ false)
        × (lt ab.config.max_failure_rate_threshold t ≡ false)
  unfolding update_emas adapt_threshold
  clamped ab irrefl ordered called = ground (
    arith,
    irrefl ab.config.min_failure_rate_threshold,
    irrefl ab.config.max_failure_rate_threshold,
  )

  -- With thresholds that are not NaN and a minimum not above the maximum: after any window with a
  -- call, the threshold that UpdateEMAs leaves lies between them, ends included, if it is not NaN.
  pub update_emas_clamped :
      IsOrdered
      → (ab : AdaptiveBreaker F)
      → le ab.config.min_failure_rate_threshold ab.config.min_failure_rate_threshold ≡ true
      → le ab.config.max_failure_rate_threshold ab.config.max_failure_rate_threshold ≡ true
      → lt ab.config.max_failure_rate_threshold ab.config.min_failure_rate_threshold ≡ false
      → 0 < ab.window_calls
      → le (update_emas float ab).current_threshold (update_emas float ab).current_threshold ≡ true
      → (le ab.config.min_failure_rate_threshold (update_emas float ab).current_threshold ≡ true)
        × (le (update_emas float ab).current_threshold ab.config.max_failure_rate_threshold ≡ true)
  update_emas_clamped o ab low high ordered called number =
      let t = (update_emas float ab).current_threshold in
      let (above, below) = clamped ab o.lt_irrefl ordered called in
      (
        o.le_of_lt t ab.config.min_failure_rate_threshold number low above,
        o.le_of_lt ab.config.max_failure_rate_threshold t high number below,
      )

-- What happens in turn: a call, UpdateEMAs, and what else the program does.
pub data Turn {κ μ} (S : Type κ) (A : Type μ) : Type (κ ⊔ μ) where
  calls : Proc S (Outcome A) → Turn S A
  updates : Turn S A
  passes : (S → S) → Turn S A

abbrev pub calls_of {κ μ} : {S : Type κ} {A : Type μ} → List (Turn S A) → ℕ
calls_of [] = 0
calls_of (calls fn ∷ ts) = suc (calls_of ts)
calls_of (_ ∷ ts) = calls_of ts

module _ {ℓ κ} {F : Type ℓ} {S : Type κ} (cell : Cell S (AdaptiveBreaker F)) where
  -- What else the program does leaves the breaker as it is.
  abbrev pub Spares {μ} : {A : Type μ} → Turn S A → Type (ℓ ⊔ κ)
  Spares (passes f) = (s : S) → cell.get (f s) ≡ cell.get s
  Spares _ = Unit

module _ {ℓ κ} {F : Type ℓ} (float : Float64 F) {S : Type κ}
    (cell : Cell S (AdaptiveBreaker F)) where
  updated :
      IsCell cell
      → (s : S) → is_exceeded (cell.get s) ≡ true
      → is_exceeded (cell.get (cell.put (update_emas float (cell.get s)) s)) ≡ true
  unfolding update_emas adapt_threshold
  updated lens s h = rw (lens (update_emas float (cell.get s)) s) (ground arith)

module _ {ℓ κ μ} {F : Type ℓ} (float : Float64 F) {S : Type κ} {A : Type μ}
    (cell : Cell S (AdaptiveBreaker F)) (clock : Clock S) where
  -- What the calls return; a panic ends the turns.
  unfoldable pub outcomes : List (Turn S A) → S → List (Outcome A)
  unfolding execute_adaptive update_emas
  outcomes [] s = []
  outcomes (updates ∷ ts) s = outcomes ts (cell.put (update_emas float (cell.get s)) s)
  outcomes (passes f ∷ ts) s = outcomes ts (f s)
  outcomes (calls fn ∷ ts) s = elim (execute_adaptive float cell clock fn s) [
    | panicked s' ↦ []
    | returned r s' ↦ r ∷ outcomes ts s'
  ]

  refused :
      IsCell cell
      → (fn : Proc S (Outcome A)) (s : S) → is_exceeded (cell.get s) ≡ true
      → (s' : S) × (execute_adaptive float cell clock fn s ≡ returned (none, some open_state) s')
        × (is_exceeded (cell.get s') ≡ true)
  unfolding execute_adaptive force_open
  refused lens fn s h =
      let ab = cell.get s in
      let forced : AdaptiveBreaker F = record ab { inner = force_open ab.inner } in
      (cell.put forced s, ground arith, ground (arith, lens forced s))

  keeps_refusing :
      IsCell cell
      → (ts : List (Turn S A)) (s : S) → All (Spares cell) ts
      → is_exceeded (cell.get s) ≡ true
      → outcomes ts s ≡ replicate (calls_of ts) (none, some open_state)
  unfolding outcomes
  keeps_refusing lens [] s a h = refl
  keeps_refusing lens (updates ∷ ts) s (a, rest) h =
      keeps_refusing lens ts _ rest (updated float cell lens s h)
  keeps_refusing lens (passes f ∷ ts) s (a, rest) h = keeps_refusing lens ts (f s) rest (rw (a s) h)
  keeps_refusing lens (calls fn ∷ ts) s (a, rest) h =
      let (s', e, h') = refused lens fn s h in
      rw (e, outcomes)
        (ap (λ (rs : List (Outcome A)). (none, some open_state) ∷ rs)
          (keeps_refusing lens ts s' rest h'))

  -- A failed call, of an inner breaker that admits it, with which the consecutive failures reach
  -- their limit: its error goes on to the caller; and of the calls that follow in turn, with none
  -- in flight, each returns ErrOpenState, whatever the functions are, whatever time passes and
  -- however often UpdateEMAs is called in between, as long as what else the program does leaves the
  -- breaker as it is.
  pub execute_adaptive_latched :
      IsCell cell
      → (fn : Proc S (Outcome A)) (s s₁ : S) (v : Option A) (e : GoError)
      → is_exceeded (cell.get s) ≡ false
      → execute float (inner_cell cell) clock fn (clock s).1 ≡ returned (v, some e) s₁
      → is_rejection e ≡ false
      → (cell.get (clock s₁).1).consecutive_failures + 1
        ≡ (cell.get (clock s₁).1).config.consecutive_failure_limit
      → (cell.get (clock s₁).1).config.consecutive_failure_limit < u32_mod
      → (ts : List (Turn S A)) → All (Spares cell) ts
      → outcomes (calls fn ∷ ts) s ≡ (v, some e) ∷ replicate (calls_of ts) (none, some open_state)
  unfolding outcomes execute_adaptive track track_call
  execute_adaptive_latched lens fn s s₁ v e more failed error last words ts a =
      let s' = (clock s₁).1 in
      let d = since (clock s₁).0 (clock s).0 in
      let ab = track_call d (some e) (cell.get s') in
      let reached : is_exceeded (cell.get (cell.put ab s')) ≡ true =
        rw (lens ab s') (ground arith) in
      rw (more, failed, error, outcomes, execute_adaptive, track)
        (ap (λ (rest : List (Outcome A)). (v, some e) ∷ rest)
          (keeps_refusing lens ts (cell.put ab s') a reached))
