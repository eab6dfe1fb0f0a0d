-- ===== src/Base/Int.antt =====
-- Signed integers over the native numbers, under the library's names. They stand for Go's int and
-- time.Duration, whose values stay far from the ends of 64 bits.
use goshield_bootcamp.Base.{
  ◌<◌, ◌≡◌, arith, ◌%◌, ◌^◌, ℕ, suc, ◌+◌, ◌-◌, ◌*◌, ◌≤◌, Bool, ltb, leb, ◌==◌, if◌then◌else◌,
}

-- `negsuc n` is -(n + 1).
pub data ℤ : Type 0 where
  pos : ℕ → ℤ
  negsuc : ℕ → ℤ

abbrev pub pos_part : ℤ → ℕ
pos_part (pos n) = n
pos_part (negsuc n) = 0

abbrev pub neg_part : ℤ → ℕ
neg_part (pos n) = 0
neg_part (negsuc n) = suc n

-- a - b, as an integer.
abbrev pub sub_ℕ : ℕ → ℕ → ℤ
sub_ℕ a b = if leb b a then pos (a - b) else negsuc (b - a - 1)

infixl 65 ◌+ℤ◌ ◌-ℤ◌
infixl 70 ◌*ℤ◌
infix 50 ◌≤ℤ◌
unfoldable pub ◌+ℤ◌ : ℤ → ℤ → ℤ
a +ℤ b = sub_ℕ (pos_part a + pos_part b) (neg_part a + neg_part b)

unfoldable pub ◌-ℤ◌ : ℤ → ℤ → ℤ
a -ℤ b = sub_ℕ (pos_part a + neg_part b) (neg_part a + pos_part b)

unfoldable pub ◌*ℤ◌ : ℤ → ℤ → ℤ
a *ℤ b =
    sub_ℕ (pos_part a * pos_part b + neg_part a * neg_part b)
      (pos_part a * neg_part b + neg_part a * pos_part b)

abbrev pub ◌≤ℤ◌ : ℤ → ℤ → Type 0
a ≤ℤ b = pos_part a + neg_part b ≤ pos_part b + neg_part a

abbrev pub ltb_ℤ : ℤ → ℤ → Bool
ltb_ℤ a b = ltb (pos_part a + neg_part b) (pos_part b + neg_part a)

abbrev pub leb_ℤ : ℤ → ℤ → Bool
leb_ℤ a b = leb (pos_part a + neg_part b) (pos_part b + neg_part a)

abbrev pub eqb_ℤ : ℤ → ℤ → Bool
eqb_ℤ a b = (pos_part a + neg_part b) == (pos_part b + neg_part a)

abbrev pub two63 : ℕ
two63 = 2 ^ 63

abbrev pub two64 : ℕ
two64 = 2 ^ 64

-- The int64 of a bit pattern, and an integer wrapped to int64.
abbrev pub int64_of_bits : ℕ → ℤ
int64_of_bits m = if ltb m two63 then pos m else negsuc (two64 - m - 1)

unfoldable pub wrap64 : ℤ → ℤ
wrap64 z = int64_of_bits ((pos_part z + two64 - neg_part z % two64) % two64)

pub +ℤ-pos : (a b : ℕ) → pos a +ℤ pos b ≡ pos (a + b)
unfolding ◌+ℤ◌
+ℤ-pos a b = ground arith

pub *ℤ-pos : (a b : ℕ) → pos a *ℤ pos b ≡ pos (a * b)
unfolding ◌*ℤ◌
*ℤ-pos a b = ground arith

pub wrap64_small : (n : ℕ) → n < two63 → wrap64 (pos n) ≡ pos n
unfolding wrap64
wrap64_small n h = ground arith

-- A number from 2 ^ 63 up to 2 ^ 64 wraps to a negative one.
pub wrap64_high : (n : ℕ) → two63 ≤ n → n < two64 → (m : ℕ) × (wrap64 (pos n) ≡ negsuc m)
unfolding wrap64
wrap64_high n low high = (two64 - n - 1, ground arith)
