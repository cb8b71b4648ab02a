-- ===== src/Prelude/Int.antt =====
-- Signed integers over the native numbers, without a width. `negsuc n` is -(n + 1).
use Prim.Native.Nat.{ℕ, suc, ◌+◌, ◌-◌, ◌*◌, ◌%◌, ◌^◌, ◌≤◌, ◌<◌}
use mathlib.Core.Path.{◌≡◌}
use mathlib.Core.Bool.{Bool, true, false}
use native.Mathlib.Omega.{arith}
use apexaegis_management_pla.Prelude.Tests.{leb, ltb, if◌then◌else◌}

pub data ℤ : Type 0 where
  pos : ℕ → ℤ
  negsuc : ℕ → ℤ

abbrev pub pos_part : ℤ → ℕ
pos_part (pos n) = n
pos_part (negsuc n) = 0

abbrev pub neg_part : ℤ → ℕ
neg_part (pos n) = 0
neg_part (negsuc n) = suc n

abbrev sub_ℕ : ℕ → ℕ → ℤ
sub_ℕ a b = if leb b a then pos (a - b) else negsuc (b - a - 1)

infixl 65 ◌+ℤ◌
infix 50 ◌≤ℤ◌ ◌<ℤ◌
unfoldable pub ◌+ℤ◌ : ℤ → ℤ → ℤ
a +ℤ b = sub_ℕ (pos_part a + pos_part b) (neg_part a + neg_part b)

abbrev pub ◌≤ℤ◌ : ℤ → ℤ → Type 0
a ≤ℤ b = pos_part a + neg_part b ≤ pos_part b + neg_part a

abbrev pub ◌<ℤ◌ : ℤ → ℤ → Type 0
a <ℤ b = pos_part a + neg_part b < pos_part b + neg_part a

-- `a < b` as a test.
abbrev pub ltbℤ : ℤ → ℤ → Bool
ltbℤ a b = ltb (pos_part a + neg_part b) (pos_part b + neg_part a)

pub ltbℤ→lt : (a b : ℤ) → ltbℤ a b ≡ true → a <ℤ b
ltbℤ→lt a b h = ground arith

pub ltbℤ→le : (a b : ℤ) → ltbℤ a b ≡ false → b ≤ℤ a
ltbℤ→le a b h = ground arith

pub leℤ_trans : (a b c : ℤ) → a ≤ℤ b → b ≤ℤ c → a ≤ℤ c
leℤ_trans a b c h k = omega arith

pub +ℤ_parts :
    (a b : ℤ)
    → pos_part (a +ℤ b) + neg_part a + neg_part b ≡ neg_part (a +ℤ b) + pos_part a + pos_part b
unfolding ◌+ℤ◌
+ℤ_parts a b = ground arith

-- A value with the wrap-around of Go's int64: modulo 2 ^ 64, from -2 ^ 63 on.
abbrev wrap_int64 : ℤ → ℤ
wrap_int64 (pos n) = let r = n % 2 ^ 64 in if ltb r (2 ^ 63) then pos r else negsuc (2 ^ 64 - 1 - r)
wrap_int64 (negsuc n) =
    let r = n % 2 ^ 64 in if ltb r (2 ^ 63) then negsuc r else pos (2 ^ 64 - 1 - r)

unfoldable pub add_int64 : ℤ → ℤ → ℤ
add_int64 a b = wrap_int64 (a +ℤ b)

-- A product with a positive factor, with the same wrap-around.
unfoldable pub scale_int64 : ℤ → ℕ → ℤ
scale_int64 (pos n) k = wrap_int64 (pos (n * k))
scale_int64 (negsuc n) k = wrap_int64 (negsuc (suc n * k - 1))
