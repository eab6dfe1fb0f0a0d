-- ===== src/Base/Go.antt =====
-- What the packages share of Go: unsigned integers that wrap, readings of the monotonic clock,
-- durations in nanoseconds, and errors as values.
use goshield_bootcamp.Base.{
  ◌≡◌, refl, ◌⊎◌, inl, inr, ℕ, ◌+◌, ◌%◌, ◌^◌, Bool, true, false, Option, none, some, if◌then◌else◌,
}
use goshield_bootcamp.Base.Int.{ℤ, sub_ℕ}

abbrev pub u32_mod : ℕ
u32_mod = 2 ^ 32

abbrev pub u64_mod : ℕ
u64_mod = 2 ^ 64

-- `x++` on a uint32 and on a uint64.
abbrev pub inc32 : ℕ → ℕ
inc32 n = (n + 1) % u32_mod

abbrev pub inc64 : ℕ → ℕ
inc64 n = (n + 1) % u64_mod

-- `if` on a truth value, as a step of a counter.
abbrev pub inc32_if : Bool → ℕ → ℕ
inc32_if b n = if b then inc32 n else n

abbrev pub inc64_if : Bool → ℕ → ℕ
inc64_if b n = if b then inc64 n else n

-- A reading of the clock, in nanoseconds.
abbrev pub Time : Type 0
Time = ℕ

abbrev pub Duration : Type 0
Duration = ℤ

abbrev pub millisecond : ℕ
millisecond = 1000000

abbrev pub second : ℕ
second = 1000000000

-- `time.Since(t)` at the reading `now`.
abbrev pub since : Time → Time → Duration
since now t = sub_ℕ now t

-- The errors that the packages declare, those of a context, and those of the caller (by a number).
pub data GoError : Type 0 where
  open_state too_many_requests forced_open : GoError
  rate_limit_exceeded : GoError
  bulkhead_full bulkhead_timeout : GoError
  operation_timed_out : GoError
  max_retries_exceeded : GoError
  context_canceled context_deadline_exceeded : GoError
  join : GoError → GoError → GoError
  other : ℕ → GoError

abbrev pub is_err {ℓ} : {A : Type ℓ} → Option A → Bool
is_err none = false
is_err (some e) = true

-- What a call returns, `(any, error)`; `none` is nil.
abbrev pub Outcome {ℓ} : Type ℓ → Type ℓ
Outcome A = Option A × Option GoError

-- A run of code on a state: it returns, or it panics and unwinds.
pub data Exit {ℓ κ} (S : Type ℓ) (A : Type κ) : Type (ℓ ⊔ κ) where
  returned : A → S → Exit S A
  panicked : S → Exit S A

pub Exit-cases {ℓ κ} :
    {S : Type ℓ} {A : Type κ} (x : Exit S A)
    → ((s : S) × (x ≡ panicked s)) ⊎ ((a : A) × (s : S) × (x ≡ returned a s))
Exit-cases (returned a s) = inr (a, s, refl)
Exit-cases (panicked s) = inl (s, refl)

abbrev pub Proc {ℓ κ} : Type ℓ → Type κ → Type (ℓ ⊔ κ)
Proc S A = S → Exit S A

infixl 5 ◌>>=◌
abbrev pub ◌>>=◌ {ℓ κ μ} :
    {S : Type ℓ} {A : Type κ} {B : Type μ} → Proc S A → (A → Proc S B) → Proc S B
◌>>=◌ m f s = elim (m s) [ returned a s' ↦ f a s' | panicked s' ↦ panicked s' ]

abbrev pub pure {ℓ κ} : {S : Type ℓ} {A : Type κ} → A → Proc S A
pure a s = returned a s

-- Where an object lives in the state of the program, and the clock, whose reading may be preceded
-- by the work of other goroutines.
pub record Cell {ℓ κ} (S : Type ℓ) (A : Type κ) : Type (ℓ ⊔ κ) where
  pub get : S → A
  pub put : A → S → S

abbrev pub Clock {ℓ} : Type ℓ → Type ℓ
Clock S = S → Time × S

-- What is put is what one gets.
abbrev pub IsCell {ℓ κ} : {S : Type ℓ} {A : Type κ} → Cell S A → Type (ℓ ⊔ κ)
IsCell {S} {A} c = (a : A) (s : S) → c.get (c.put a s) ≡ a
