-- ===== src/Base/Int.antt =====
-- Go's `int`, of 64 bits: an integer in two's complement range, with wrap-around written out.
use Prim.Native.Nat.{ℕ, suc, ◌+◌, ◌-◌, ◌*◌, ◌%◌, ◌≤◌, ◌<◌}
use mathlib.Core.Path.{◌≡◌}
use mathlib.Core.Bool.{Bool}
use mathlib.Core.List.{List, ◌∷◌}
use native.Mathlib.Omega.{arith}
use mock_my_mta.Base.Bools.{ltb, leb, if◌then◌else◌}
use mock_my_mta.Base.Decimal.{itoa}

-- `negsuc n` is -(n + 1).
pub data ℤ : Type 0 where
  pos : ℕ → ℤ
  negsuc : ℕ → ℤ

abbrev pub pos_part : ℤ → ℕ
pos_part (pos n) = n
pos_part (negsuc n) = 0

abbrev pub neg_part : ℤ → ℕ
neg_part (pos n) = 0
neg_part (negsuc n) = suc n

-- a - b, as an integer.
abbrev pub sub_ℕ : ℕ → ℕ → ℤ
sub_ℕ a b = if leb b a then pos (a - b) else negsuc (b - a - 1)

abbrev pub ltb_ℤ : ℤ → ℤ → Bool
ltb_ℤ a b = ltb (pos_part a + neg_part b) (pos_part b + neg_part a)

abbrev pub leb_ℤ : ℤ → ℤ → Bool
leb_ℤ a b = leb (pos_part a + neg_part b) (pos_part b + neg_part a)

abbrev pub two_63 : ℕ
two_63 = 9223372036854775808

abbrev pub two_64 : ℕ
two_64 = 18446744073709551616

-- The `int` that a natural number's low 64 bits stand for.
abbrev pub of_bits : ℕ → ℤ
of_bits n = if ltb n two_63 then pos n else negsuc (two_64 - n - 1)

-- An exact value a - b, reduced to an `int`.
unfoldable pub wrap : ℕ → ℕ → ℤ
wrap a b = of_bits ((a + (two_64 - b % two_64)) % two_64)

infixl 65 ◌+ℤ◌ ◌-ℤ◌
infixl 70 ◌*ℤ◌
-- `+`, `-` and `*` on `int`.
unfoldable pub ◌+ℤ◌ : ℤ → ℤ → ℤ
a +ℤ b = wrap (pos_part a + pos_part b) (neg_part a + neg_part b)

unfoldable pub ◌-ℤ◌ : ℤ → ℤ → ℤ
a -ℤ b = wrap (pos_part a + neg_part b) (neg_part a + pos_part b)

unfoldable pub ◌*ℤ◌ : ℤ → ℤ → ℤ
a *ℤ b =
    wrap (pos_part a * pos_part b + neg_part a * neg_part b)
      (pos_part a * neg_part b + neg_part a * pos_part b)

-- Within the range the operations are exact.
pub wrap-pos : (a b : ℕ) → b ≤ a → a < two_63 → wrap a b ≡ pos (a - b)
unfolding wrap
wrap-pos a b h k = ground arith

pub mul_exact : (a b : ℕ) → a * b < two_63 → pos a *ℤ pos b ≡ pos (a * b)
unfolding ◌*ℤ◌ wrap
mul_exact a b h = ground arith

-- A product past the range, but below 2 ^ 64, comes out negative.
pub mul_overflow :
    (a b : ℕ) → two_63 ≤ a * b → a * b < two_64 → pos a *ℤ pos b ≡ negsuc (two_64 - a * b - 1)
unfolding ◌*ℤ◌ wrap
mul_overflow a b h k = ground arith

-- Differences and sums within the range.
pub sub_exact : (a b : ℕ) → b ≤ a → a < two_63 → pos a -ℤ pos b ≡ pos (a - b)
unfolding ◌-ℤ◌ wrap
sub_exact a b h k = ground arith

pub add_exact : (a b : ℕ) → a + b < two_63 → pos a +ℤ pos b ≡ pos (a + b)
unfolding ◌+ℤ◌ wrap
add_exact a b h = ground arith

-- A difference below 0 within the range.
pub sub_below : (a b : ℕ) → a < b → b < two_63 → pos a -ℤ pos b ≡ negsuc (b - a - 1)
unfolding ◌-ℤ◌ wrap
sub_below a b h k = ground arith

-- fmt's %v of an int
unfoldable pub show_int : ℤ → List ℕ
show_int (pos n) = itoa n
show_int (negsuc n) = b'-' ∷ itoa (suc n)

pub mul_minus_one : (k : ℕ) → suc k < two_63 → pos (suc k) *ℤ negsuc 0 ≡ negsuc k
unfolding ◌*ℤ◌ wrap
mul_minus_one k h = ground arith
