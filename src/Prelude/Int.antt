-- ===== src/Prelude/Int.antt =====
-- Go's `int` and `time.Duration`: signed integers of 64 bits. Sums and differences go through the
-- two parts of an integer, and the result is wrapped into the range.
use Prim.Native.Nat.{ℕ, suc, ◌+◌, ◌-◌, ◌%◌, ◌≤◌, ◌<◌}
use mathlib.Core.Path.{◌≡◌}
use mathlib.Core.Bool.{Bool}
use native.Mathlib.Omega.{arith}
use rebost.Prelude.Tests.{ltb, leb, eqb, if◌then◌else◌}

-- `negsuc n` is -(n + 1).
pub data ℤ : Type 0 where
  pos : ℕ → ℤ
  negsuc : ℕ → ℤ

abbrev pub pos_part : ℤ → ℕ
pos_part (pos n) = n
pos_part (negsuc n) = 0

abbrev pub neg_part : ℤ → ℕ
neg_part (pos n) = 0
neg_part (negsuc n) = suc n

abbrev pub sub_ℕ : ℕ → ℕ → ℤ
sub_ℕ a b = if leb b a then pos (a - b) else negsuc (b - a - 1)

infixl 65 ◌+ℤ◌ ◌-ℤ◌
infix 50 ◌≤ℤ◌ ◌<ℤ◌
unfoldable pub ◌+ℤ◌ : ℤ → ℤ → ℤ
a +ℤ b = sub_ℕ (pos_part a + pos_part b) (neg_part a + neg_part b)

unfoldable pub ◌-ℤ◌ : ℤ → ℤ → ℤ
a -ℤ b = sub_ℕ (pos_part a + neg_part b) (neg_part a + pos_part b)

abbrev pub ◌≤ℤ◌ : ℤ → ℤ → Type 0
a ≤ℤ b = pos_part a + neg_part b ≤ pos_part b + neg_part a

abbrev pub ◌<ℤ◌ : ℤ → ℤ → Type 0
a <ℤ b = pos_part a + neg_part b < pos_part b + neg_part a

abbrev pub ltb_ℤ : ℤ → ℤ → Bool
ltb_ℤ a b = ltb (pos_part a + neg_part b) (pos_part b + neg_part a)

abbrev pub eqb_ℤ : ℤ → ℤ → Bool
eqb_ℤ a b = eqb (pos_part a + neg_part b) (pos_part b + neg_part a)

abbrev pub minus_one : ℤ
minus_one = negsuc 0

abbrev pub half_range : ℕ
half_range = 9223372036854775808

abbrev pub full_range : ℕ
full_range = 18446744073709551616

abbrev pub InRange : ℤ → Type 0
InRange a = (pos_part a < half_range) × (neg_part a ≤ half_range)

-- Two's complement: the bits that stand for an integer, and the integer that bits stand for.
abbrev pub bits : ℤ → ℕ
bits (pos n) = n % full_range
bits (negsuc n) = full_range - 1 - n % full_range

abbrev pub of_bits : ℕ → ℤ
of_bits b = if ltb b half_range then pos b else negsuc (full_range - 1 - b)

unfoldable pub wrap : ℤ → ℤ
wrap a = of_bits (bits a)

unfoldable pub int_add : ℤ → ℤ → ℤ
int_add a b = wrap (a +ℤ b)

unfoldable pub int_sub : ℤ → ℤ → ℤ
int_sub a b = wrap (a -ℤ b)

unfoldable pub int_neg : ℤ → ℤ
int_neg a = wrap (pos 0 -ℤ a)

pub +ℤ_parts :
    (a b : ℤ)
    → pos_part (a +ℤ b) + neg_part a + neg_part b ≡ neg_part (a +ℤ b) + pos_part a + pos_part b
unfolding ◌+ℤ◌
+ℤ_parts a b = ground arith

pub -ℤ_parts :
    (a b : ℤ)
    → pos_part (a -ℤ b) + neg_part a + pos_part b ≡ neg_part (a -ℤ b) + pos_part a + neg_part b
unfolding ◌-ℤ◌
-ℤ_parts a b = ground arith

pub eq_of_parts : (a b : ℤ) → pos_part a + neg_part b ≡ pos_part b + neg_part a → a ≡ b
eq_of_parts a b h = ground arith

pub wrap_fits : (a : ℤ) → InRange a → wrap a ≡ a
unfolding wrap
wrap_fits (pos n) h = ground arith
wrap_fits (negsuc n) h = ground arith

pub wrap-InRange : (a : ℤ) → InRange (wrap a)
unfolding wrap
wrap-InRange (pos n) = ground arith
wrap-InRange (negsuc n) = ground arith

pub ruleset int_laws = (arith, +ℤ_parts, -ℤ_parts, eq_of_parts)
