-- ===== src/Base/Float.antt =====
-- float64, which the compiler and the hardware implement: an interface of operations, and the laws
-- of IEEE 754 that the theorems use, in records that a theorem names one by one.
use goshield_bootcamp.Base.Go.{u32_mod}
use goshield_bootcamp.Base.{◌≤◌, ◌<◌, leb, ℕ, ◌≡◌, Bool, true}
use goshield_bootcamp.Base.Int.{ℤ}

pub record Float64 {ℓ} (F : Type ℓ) : Type ℓ where
  -- `float64(n)` of an unsigned integer, and of a signed one.
  pub of_uint : ℕ → F
  pub of_int : ℤ → F
  -- The literal for the fraction n / d, such as 0.3.
  pub literal : ℕ → ℕ → F
  pub add : F → F → F
  pub sub : F → F → F
  pub mul : F → F → F
  pub div : F → F → F
  pub pow : F → F → F
  pub lt : F → F → Bool
  pub le : F → F → Bool
  -- `int64(x)`.
  pub to_int : F → ℤ
  -- `d.Seconds()` of a duration.
  pub seconds : ℤ → F

infix 50 ◌≼◌
abbrev pub ◌≼◌ {ℓ} : {F : Type ℓ} ⦃f : Float64 F⦄ → F → F → Type 0
◌≼◌ ⦃f⦄ x y = f.le x y ≡ true

module _ {ℓ} {F : Type ℓ} (float : Float64 F) where
  open float use {of_uint, mul, div, le}

  -- IEEE 754 on quotients of integers that float64 holds exactly, as of all uint32.
  pub record IsRatio : Type ℓ where
    pub div_self : (n : ℕ) → 0 < n → n < u32_mod → div (of_uint n) (of_uint n) ≡ of_uint 1
    pub zero-div : (n : ℕ) → 0 < n → n < u32_mod → div (of_uint 0) (of_uint n) ≡ of_uint 0
    pub one-mul : (n : ℕ) → n < u32_mod → mul (of_uint 1) (of_uint n) ≡ of_uint n
    pub zero-mul : (n : ℕ) → n < u32_mod → mul (of_uint 0) (of_uint n) ≡ of_uint 0
    pub of_uint-le : (m n : ℕ) → m < u32_mod → n < u32_mod → le (of_uint m) (of_uint n) ≡ leb m n

  -- Division and multiplication round monotonically.
  pub record IsMonotone : Type ℓ where
    pub le_trans : (x y z : F) → le x y ≡ true → le y z ≡ true → le x z ≡ true
    pub div_mono :
        (m n k : ℕ)
        → m ≤ n
        → n < u32_mod
        → 0 < k
        → k < u32_mod
        → le (div (of_uint m) (of_uint k)) (div (of_uint n) (of_uint k)) ≡ true
    pub mul_mono :
        (x y : F) (k : ℕ)
        → 0 < k
        → k < u32_mod
        → le x y ≡ true
        → le (mul x (of_uint k)) (mul y (of_uint k)) ≡ true
