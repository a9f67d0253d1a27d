-- ===== src/Prelude/Int.antt =====
-- Go's integers. `ℤ` is a signed integer over the native numbers, under the library's names; an
-- `int64` is a ℤ, and every operation on it ends in `wrap64`, which keeps the value modulo 2 ^ 64
-- in two's complement. Sums and orders go through the two parts of an integer, which are numbers.
use Prim.Native.Nat.{ℕ, suc, ◌+◌, ◌-◌, ◌*◌, ◌%◌, ◌^◌, ◌≤◌, ◌<◌}
use mathlib.Core.Path.{◌≡◌}
use mathlib.Core.Logic.{◌⊎◌}
use mathlib.Core.Bool.{Bool}
use native.Mathlib.Omega.{arith}
use gateway_controllers.Prelude.Tests.{ltb, leb, ◌==◌, if◌then◌else◌}

-- `negsuc n` is -(n + 1).
pub data ℤ : Type 0 where
  pos : ℕ → ℤ
  negsuc : ℕ → ℤ

abbrev pub pos_part : ℤ → ℕ
pos_part (pos n) = n
pos_part (negsuc n) = 0

abbrev pub neg_part : ℤ → ℕ
neg_part (pos n) = 0
neg_part (negsuc n) = suc n

-- a - b, as an integer.
abbrev pub sub_ℕ : ℕ → ℕ → ℤ
sub_ℕ a b = if leb b a then pos (a - b) else negsuc (b - a - 1)

infixl 65 ◌+ℤ◌ ◌-ℤ◌
infixl 70 ◌*ℤ◌
infix 50 ◌≤ℤ◌ ◌<ℤ◌
unfoldable pub ◌+ℤ◌ : ℤ → ℤ → ℤ
a +ℤ b = sub_ℕ (pos_part a + pos_part b) (neg_part a + neg_part b)

unfoldable pub ◌-ℤ◌ : ℤ → ℤ → ℤ
a -ℤ b = sub_ℕ (pos_part a + neg_part b) (neg_part a + pos_part b)

unfoldable pub ◌*ℤ◌ : ℤ → ℤ → ℤ
a *ℤ b =
    sub_ℕ (pos_part a * pos_part b + neg_part a * neg_part b)
      (pos_part a * neg_part b + neg_part a * pos_part b)

abbrev pub ◌≤ℤ◌ : ℤ → ℤ → Type 0
a ≤ℤ b = pos_part a + neg_part b ≤ pos_part b + neg_part a

abbrev pub ◌<ℤ◌ : ℤ → ℤ → Type 0
a <ℤ b = pos_part a + neg_part b < pos_part b + neg_part a

abbrev pub lt_ℤ : ℤ → ℤ → Bool
lt_ℤ a b = ltb (pos_part a + neg_part b) (pos_part b + neg_part a)

abbrev pub le_ℤ : ℤ → ℤ → Bool
le_ℤ a b = leb (pos_part a + neg_part b) (pos_part b + neg_part a)

abbrev pub eq_ℤ : ℤ → ℤ → Bool
eq_ℤ a b = pos_part a + neg_part b == pos_part b + neg_part a

pub +ℤ_parts :
    (a b : ℤ)
    → pos_part (a +ℤ b) + neg_part a + neg_part b ≡ neg_part (a +ℤ b) + pos_part a + pos_part b
unfolding ◌+ℤ◌
+ℤ_parts a b = ground arith

pub -ℤ_parts :
    (a b : ℤ)
    → pos_part (a -ℤ b) + neg_part a + pos_part b ≡ neg_part (a -ℤ b) + pos_part a + neg_part b
unfolding ◌-ℤ◌
-ℤ_parts a b = ground arith

pub eq_of_parts : (a b : ℤ) → pos_part a + neg_part b ≡ pos_part b + neg_part a → a ≡ b
eq_of_parts a b h = ground arith

-- A number below 2 ^ 64 read as a two's complement int64.
abbrev pub signed64 : ℕ → ℤ
signed64 w = if ltb w (2 ^ 63) then pos w else negsuc (2 ^ 64 - w - 1)

-- The int64 that is congruent to an integer modulo 2 ^ 64.
unfoldable pub wrap64 : ℤ → ℤ
wrap64 (pos n) = signed64 (n % 2 ^ 64)
wrap64 (negsuc n) = signed64 (2 ^ 64 - 1 - n % 2 ^ 64)

-- The values that an int64 holds.
abbrev pub InInt64 : ℤ → Type 0
InInt64 a = (pos_part a < 2 ^ 63) × (neg_part a ≤ 2 ^ 63)

pub wrap64_of_InInt64 : (a : ℤ) → InInt64 a → wrap64 a ≡ a
unfolding wrap64
wrap64_of_InInt64 (pos n) h = ground arith
wrap64_of_InInt64 (negsuc n) h = ground arith

pub wrap64-InInt64 : (a : ℤ) → InInt64 (wrap64 a)
unfolding wrap64
wrap64-InInt64 (pos n) = ground arith
wrap64-InInt64 (negsuc n) = ground arith

-- `a + b`, `a - b` and `a * b` on int64.
unfoldable pub add64 : ℤ → ℤ → ℤ
add64 a b = wrap64 (a +ℤ b)

unfoldable pub sub64 : ℤ → ℤ → ℤ
sub64 a b = wrap64 (a -ℤ b)

unfoldable pub mul64 : ℤ → ℤ → ℤ
mul64 a b = wrap64 (a *ℤ b)

-- Where the true sum fits, the operations give it.
pub add64_parts :
    (a b : ℤ)
    → pos_part a + pos_part b < neg_part a + neg_part b + 2 ^ 63
    → neg_part a + neg_part b ≤ pos_part a + pos_part b + 2 ^ 63
    → pos_part (add64 a b) + neg_part a + neg_part b
      ≡ neg_part (add64 a b) + pos_part a + pos_part b
unfolding add64 ◌+ℤ◌ wrap64
add64_parts a b lo hi = ground arith

pub sub64_parts :
    (a b : ℤ)
    → pos_part a + neg_part b < neg_part a + pos_part b + 2 ^ 63
    → neg_part a + pos_part b ≤ pos_part a + neg_part b + 2 ^ 63
    → pos_part (sub64 a b) + neg_part a + pos_part b
      ≡ neg_part (sub64 a b) + pos_part a + neg_part b
unfolding sub64 ◌-ℤ◌ wrap64
sub64_parts a b lo hi = ground arith

-- The two parts of an integer are not both positive.
pub parts_apart : (a : ℤ) → pos_part a ≤ 0 ⊎ neg_part a ≤ 0
parts_apart (pos n) = omega arith
parts_apart (negsuc n) = omega arith

pub ruleset int_laws = (arith, +ℤ_parts, -ℤ_parts, eq_of_parts, add64_parts, sub64_parts)

-- Past the largest int64 the sum is too small by 2 ^ 64, and a difference likewise.
pub add64_over :
    (a b : ℤ)
    → neg_part a + neg_part b + 2 ^ 63 ≤ pos_part a + pos_part b
    → pos_part a + pos_part b < neg_part a + neg_part b + 2 ^ 63 + 2 ^ 64
    → pos_part (add64 a b) + neg_part a + neg_part b + 2 ^ 64
      ≡ neg_part (add64 a b) + pos_part a + pos_part b
unfolding add64 ◌+ℤ◌ wrap64
add64_over a b lo hi = ground arith

-- On numbers that are not negative.
pub sub64-pos : (a b : ℕ) → b ≤ a → a < 2 ^ 63 → sub64 (pos a) (pos b) ≡ pos (a - b)
unfolding sub64 ◌-ℤ◌ wrap64
sub64-pos a b h k = ground arith

pub add64-pos : (a b : ℕ) → a + b < 2 ^ 63 → add64 (pos a) (pos b) ≡ pos (a + b)
unfolding add64 ◌+ℤ◌ wrap64
add64-pos a b h = ground arith

pub mul64-pos : (a b : ℕ) → a * b < 2 ^ 63 → mul64 (pos a) (pos b) ≡ pos (a * b)
unfolding mul64 ◌*ℤ◌ wrap64
mul64-pos a b h = ground arith
