-- ===== src/Examples/Fixed.antt =====
-- Fixed-point numbers, in thousandths and rounded down: they meet the laws that the theorems take
-- of float64.
use goshield_bootcamp.Config.Presets.{IsDecimal}
use goshield_bootcamp.Backoff.Delays.{IsTruncating}
use goshield_bootcamp.RateLimit.TokenBucket.{IsCapped}
use goshield_bootcamp.Base.Float.{Float64, IsRatio, IsMonotone}
use goshield_bootcamp.Base.Int.{pos, pos_part}
use goshield_bootcamp.Base.{true, ℕ, ◌+◌, ◌-◌, ◌*◌, ◌/◌, ◌≤◌, ◌<◌, ◌≡◌, arith, leb, ltb}

abbrev pub fixed : Float64 ℕ
fixed = record {
  of_uint = λ n. n * 1000;
  of_int = λ z. pos_part z * 1000;
  literal = λ n d. n * 1000 / d;
  add = λ a b. a + b;
  sub = λ a b. a - b;
  mul = λ a b. a * b / 1000;
  div = λ a b. a * 1000 / b;
  pow = λ a b. a;
  lt = ltb;
  le = leb;
  to_int = λ a. pos (a / 1000);
  seconds = λ d. pos_part d / 1000000;
}

div_self : (n : ℕ) → 0 < n → n * 1000 * 1000 / (n * 1000) ≡ 1000
div_self n h = grind arith

div_mono : (m n k : ℕ) → m ≤ n → m / k ≤ n / k
div_mono m n k h = grind arith

zero-div : (n : ℕ) → 0 / n ≡ 0
zero-div n = grind arith

leb_of_le : (m n : ℕ) → m ≤ n → leb m n ≡ true
leb_of_le m n h = ground arith

mul_mono : (x y k : ℕ) → x ≤ y → x * (k * 1000) ≤ y * (k * 1000)
mul_mono x y k h = grind arith

pub fixed-IsRatio : IsRatio fixed
fixed-IsRatio = record {
  div_self = λ n h w. div_self n h;
  zero-div = λ n h w. zero-div (n * 1000);
  one-mul = λ n w. omega arith;
  zero-mul = λ n w. omega arith;
  of_uint-le = λ m n w w'. ground arith;
}

pub fixed-IsMonotone : IsMonotone fixed
fixed-IsMonotone = record {
  le_trans = λ x y z h k. ground arith;
  div_mono = λ m n k h w p w'.
      leb_of_le _ _ (div_mono (m * 1000 * 1000) (n * 1000 * 1000) (k * 1000) (omega arith));
  mul_mono = λ x y k h p w.
      leb_of_le _ _
        (div_mono (x * (k * 1000)) (y * (k * 1000)) 1000 (mul_mono x y k (ground arith)));
}

pub fixed-IsCapped : IsCapped fixed
fixed-IsCapped = record { lt_irrefl = λ x. ground arith; sub_bound = λ b x n h. ground arith }

div-le : (m x : ℕ) → x ≤ m * 1000 → x / 1000 ≤ m
div-le m x h = omega arith

half_bound : (m x : ℕ) → x ≤ m * 1000 → 500 * x / 1000 ≤ m * 1000
half_bound m x h = omega arith

-- A draw of one half.
pub fixed-IsTruncating : IsTruncating fixed 500
fixed-IsTruncating = record {
  lt_irrefl = λ x. ground arith;
  to_int_bound = λ m x h. omega (arith, div-le m x (ground arith));
  mul_bound = λ m x h. ground (arith, half_bound m x (ground arith));
}

tenths-div : (m : ℕ) → m * 1000 / 10 ≡ m * 100
tenths-div m = omega arith

pub fixed-IsDecimal : IsDecimal fixed
fixed-IsDecimal = record {
  lt-uint = λ m n h k. ground (arith, tenths-div m);
  uint-lt = λ m n h k. ground (arith, tenths-div m);
  lt-lt = λ m n h k. ground (arith, tenths-div m, tenths-div n);
  le-zero = λ m h. ground (arith, tenths-div m);
}
