-- ===== src/Base/Int.antt =====
-- Signed machine integers: ℤ over the native numbers, and Go's int64 with its wrap-around.
use Prim.Native.Nat.{ℕ, suc, ◌+◌, ◌-◌, ◌%◌, ◌≤◌, ◌<◌}
use mathlib.Core.Bool.{Bool}
use native.Mathlib.Omega.{arith}
use plantops_edge_scale.Base.Tests.{ltb, leb, if◌then◌else◌}

-- `negsuc n` is -(n + 1).
pub data ℤ : Type 0 where
  pos : ℕ → ℤ
  negsuc : ℕ → ℤ

abbrev pub pos_part : ℤ → ℕ
pos_part (pos n) = n
pos_part (negsuc n) = 0

abbrev pub neg_part : ℤ → ℕ
neg_part (pos n) = 0
neg_part (negsuc n) = suc n

-- a - b, as an integer.
abbrev pub sub_ℕ : ℕ → ℕ → ℤ
sub_ℕ a b = if leb b a then pos (a - b) else negsuc (b - a - 1)

infixl 65 ◌-ℤ◌
infix 50 ◌≤ℤ◌ ◌<ℤ◌
unfoldable pub ◌-ℤ◌ : ℤ → ℤ → ℤ
a -ℤ b = sub_ℕ (pos_part a + neg_part b) (neg_part a + pos_part b)

abbrev pub ◌≤ℤ◌ : ℤ → ℤ → Type 0
a ≤ℤ b = pos_part a + neg_part b ≤ pos_part b + neg_part a

abbrev pub ◌<ℤ◌ : ℤ → ℤ → Type 0
a <ℤ b = pos_part a + neg_part b < pos_part b + neg_part a

abbrev pub ltb_ℤ : ℤ → ℤ → Bool
ltb_ℤ a b = ltb (pos_part a + neg_part b) (pos_part b + neg_part a)

abbrev pub leb_ℤ : ℤ → ℤ → Bool
leb_ℤ a b = leb (pos_part a + neg_part b) (pos_part b + neg_part a)

abbrev pub half64 : ℕ
half64 = 9223372036854775808

abbrev pub mod64 : ℕ
mod64 = 18446744073709551616

-- The values of an int64.
abbrev pub IsInt64 : ℤ → Type 0
IsInt64 z = (pos_part z < half64) × (neg_part z ≤ half64)

-- The two's complement bits of an integer, and the int64 that 64 bits stand for.
abbrev to_bits64 : ℤ → ℕ
to_bits64 (pos n) = n % mod64
to_bits64 (negsuc n) = mod64 - 1 - n % mod64

abbrev of_bits64 : ℕ → ℤ
of_bits64 u = if ltb u half64 then pos u else negsuc (mod64 - 1 - u)

abbrev pub wrap64 : ℤ → ℤ
wrap64 z = of_bits64 (to_bits64 z)

-- int64 subtraction.
unfoldable pub sub64 : ℤ → ℤ → ℤ
unfolding ◌-ℤ◌
sub64 a b = wrap64 (a -ℤ b)

pub IsInt64-sub64 : (a b : ℤ) → IsInt64 a → IsInt64 b → IsInt64 (sub64 a b)
unfolding sub64 if◌then◌else◌
IsInt64-sub64 a b ha hb = ground arith
