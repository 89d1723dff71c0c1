-- ===== src/Common/Bits.antt =====
-- Laws of `^`, `|` and `&` at variables, from the digit recursion that the native operations mean.
use Prim.Native.Nat.{ℕ, zero, suc, ◌+◌, ◌*◌, ◌/◌, ◌%◌, ◌≤◌, ◌<◌, min, max}
use Prim.Native.Nat.{bit_and, bit_or, bit_xor, digits, bitwise, differ}
use Prim.Native.Nat.{bit_and-bitwise, bit_or-bitwise, bit_xor-bitwise}
use mathlib.Core.Path.{◌≡◌, refl}
use native.Mathlib.Omega.{arith}

-- Fuel past the number itself changes nothing; `w` bounds the fuel.
module _ (z : ℕ → ℕ) (f : ℕ → ℕ → ℕ) where
  settled : (w fuel x y : ℕ) → fuel ≤ w → x ≤ fuel → digits z f fuel x y ≡ digits z f x x y
  settled w zero zero y small h = refl
  settled w (suc fuel) zero y small h = refl
  settled w zero (suc x) y small h = absurd (omega arith)
  settled zero (suc fuel) (suc x) y small h = absurd (omega arith)
  settled (suc w) (suc fuel) (suc x) y small h =
      rw
        (
          settled w fuel (suc x / 2) (y / 2) (omega arith) (omega arith),
          settled w x (suc x / 2) (y / 2) (omega arith) (omega arith),
        )
        refl

  lowest :
      (x y : ℕ)
      → bitwise z f (suc x) y ≡ f (suc x % 2) (y % 2) + 2 * bitwise z f (suc x / 2) (y / 2)
  lowest x y = omega (arith, settled x x (suc x / 2) (y / 2) (omega arith) (omega arith))

-- One digit of each operation.
pub and_digit : (x y : ℕ) → bit_and x y ≡ min (x % 2) (y % 2) + 2 * bit_and (x / 2) (y / 2)
and_digit zero y = omega (arith, bit_and-bitwise 0 y, bit_and-bitwise 0 (y / 2))
and_digit (suc x) y =
    omega (
      arith,
      lowest (λ t. 0) min x y,
      bit_and-bitwise (suc x) y,
      bit_and-bitwise (suc x / 2) (y / 2),
    )

pub or_digits : (x y : ℕ) → bit_or x y ≡ max (x % 2) (y % 2) + 2 * bit_or (x / 2) (y / 2)
or_digits zero y = omega (arith, bit_or-bitwise 0 y, bit_or-bitwise 0 (y / 2))
or_digits (suc x) y =
    omega
      (arith, lowest (λ t. t) max x y, bit_or-bitwise (suc x) y, bit_or-bitwise (suc x / 2) (y / 2))

differ_digits : (x y : ℕ) → x < 2 → y < 2 → differ x y ≡ (x + y) % 2
differ_digits zero y p q = omega arith
differ_digits (suc zero) zero p q = refl
differ_digits (suc zero) (suc zero) p q = refl
differ_digits (suc zero) (suc (suc y)) p q = absurd (omega arith)
differ_digits (suc (suc x)) y p q = absurd (omega arith)

pub xor_digits : (x y : ℕ) → bit_xor x y ≡ (x % 2 + y % 2) % 2 + 2 * bit_xor (x / 2) (y / 2)
xor_digits zero y = omega (arith, bit_xor-bitwise 0 y, bit_xor-bitwise 0 (y / 2))
xor_digits (suc x) y = omega (
  arith,
  lowest (λ t. t) differ x y,
  differ_digits (suc x % 2) (y % 2) (omega arith) (omega arith),
  bit_xor-bitwise (suc x) y,
  bit_xor-bitwise (suc x / 2) (y / 2),
)
