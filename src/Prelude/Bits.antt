-- ===== src/Prelude/Bits.antt =====
-- The exclusive or of numbers, digit by digit: applied twice, it gives the number back.
use Prim.Native.Nat.{
  ℕ, zero, suc, ◌+◌, ◌*◌, ◌/◌, ◌%◌, ◌≤◌, ◌<◌, bit_xor, digits, differ, bit_xor-bitwise,
}
use mathlib.Core.Path.{◌≡◌, refl, ◌∙◌}
use native.Mathlib.Omega.{arith}

abbrev xor_digits : ℕ → ℕ → ℕ → ℕ
xor_digits n a b = digits (λ b. b) differ n a b

xor_digits_fuel : (n m a b : ℕ) → a ≤ n → a ≤ m → xor_digits n a b ≡ xor_digits m a b
xor_digits_fuel zero zero a b p q = refl
xor_digits_fuel zero (suc m) zero b p q = refl
xor_digits_fuel zero (suc m) (suc a) b p q = absurd (omega arith)
xor_digits_fuel (suc n) zero zero b p q = refl
xor_digits_fuel (suc n) zero (suc a) b p q = absurd (omega arith)
xor_digits_fuel (suc n) (suc m) zero b p q = refl
xor_digits_fuel (suc n) (suc m) (suc a) b p q =
    omega (arith, xor_digits_fuel n m (suc a / 2) (b / 2) (omega arith) (omega arith))

zero-bit_xor : (b : ℕ) → bit_xor 0 b ≡ b
zero-bit_xor b = bit_xor-bitwise 0 b

differ_twice : (a b : ℕ) → a < 2 → b < 2 → differ (differ a b) b ≡ a
differ_twice zero zero p q = refl
differ_twice zero (suc zero) p q = refl
differ_twice (suc zero) zero p q = refl
differ_twice (suc zero) (suc zero) p q = refl
differ_twice zero (suc (suc b)) p q = absurd (omega arith)
differ_twice (suc zero) (suc (suc b)) p q = absurd (omega arith)
differ_twice (suc (suc a)) b p q = absurd (omega arith)

differ_small : (a b : ℕ) → a < 2 → b < 2 → differ a b < 2
differ_small zero b p q = q
differ_small (suc zero) zero p q = p
differ_small (suc zero) (suc zero) p q = omega arith
differ_small (suc zero) (suc (suc b)) p q = absurd (omega arith)
differ_small (suc (suc a)) b p q = absurd (omega arith)

-- The law for the lowest digit.
bit_xor_step : (a b : ℕ) → bit_xor a b ≡ bit_xor (a / 2) (b / 2) * 2 + differ (a % 2) (b % 2)
bit_xor_step zero b = omega (arith, zero-bit_xor b, zero-bit_xor (b / 2))
bit_xor_step (suc a) b = omega (
  arith,
  bit_xor-bitwise (suc a) b,
  bit_xor-bitwise (suc a / 2) (b / 2),
  xor_digits_fuel a (suc a / 2) (suc a / 2) (b / 2) (omega arith) (omega arith),
)

bit_xor_twice_fuel : (n a b : ℕ) → a ≤ n → b ≤ n → bit_xor (bit_xor a b) b ≡ a
bit_xor_twice_fuel zero zero zero p q = refl
bit_xor_twice_fuel zero zero (suc b) p q = absurd (omega arith)
bit_xor_twice_fuel zero (suc a) b p q = absurd (omega arith)
bit_xor_twice_fuel (suc n) a b p q =
    let s = bit_xor_step a b in
    let small = differ_small (a % 2) (b % 2) (omega arith) (omega arith) in
    let half : bit_xor a b / 2 ≡ bit_xor (a / 2) (b / 2) = omega arith in
    let low : bit_xor a b % 2 ≡ differ (a % 2) (b % 2) = omega arith in
    bit_xor_step (bit_xor a b) b
    ∙ rw
        (
          half,
          low,
          differ_twice (a % 2) (b % 2) (omega arith) (omega arith),
          bit_xor_twice_fuel n (a / 2) (b / 2) (omega arith) (omega arith),
        )
        (omega arith)

-- For all numbers.
pub bit_xor_twice : (a b : ℕ) → bit_xor (bit_xor a b) b ≡ a
bit_xor_twice a b = bit_xor_twice_fuel (a + b) a b (omega arith) (omega arith)
