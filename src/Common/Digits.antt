-- ===== src/Common/Digits.antt =====
-- The bit at a position of the results of `&`, `|`, `~`, a shift and a cut.
use Prim.Native.Nat.{ℕ, zero, suc, ◌+◌, ◌-◌, ◌/◌, ◌%◌, ◌^◌, ◌<◌, min, max, bit_and, bit_or}
use mathlib.Core.Path.{◌≡◌, sym, ap, ap₂, ◌∙◌}
use native.Mathlib.Omega.{arith}
use native.Mathlib.Nat.{pow-suc, div-one}
use yocto_layers.Common.Bits.{and_digit, or_digits}
use yocto_layers.Common.Words.{div-pow_suc, mod-pow_suc}

abbrev pub bit_at : ℕ → ℕ → ℕ
bit_at i x = x / 2 ^ i % 2

bit_at_zero : (x : ℕ) → bit_at 0 x ≡ x % 2
bit_at_zero x = ap (λ (t : ℕ). t % 2) (div-one x)

bit_at-suc : (i x : ℕ) → bit_at (suc i) x ≡ bit_at i (x / 2)
bit_at-suc i x = ap (λ (t : ℕ). t % 2) (div-pow_suc i x)

pub and_bit : (i a b : ℕ) → bit_at i (bit_and a b) ≡ min (bit_at i a) (bit_at i b)
and_bit zero a b =
    omega (arith, bit_at_zero (bit_and a b), bit_at_zero a, bit_at_zero b, and_digit a b)
and_bit (suc i) a b =
    let half : bit_and a b / 2 ≡ bit_and (a / 2) (b / 2) = omega (arith, and_digit a b) in
    bit_at-suc i (bit_and a b)
    ∙ ap (bit_at i) half
    ∙ and_bit i (a / 2) (b / 2)
    ∙ sym (ap₂ min (bit_at-suc i a) (bit_at-suc i b))

pub or_bit : (i a b : ℕ) → bit_at i (bit_or a b) ≡ max (bit_at i a) (bit_at i b)
or_bit zero a b =
    omega (arith, bit_at_zero (bit_or a b), bit_at_zero a, bit_at_zero b, or_digits a b)
or_bit (suc i) a b =
    let half : bit_or a b / 2 ≡ bit_or (a / 2) (b / 2) = omega (arith, or_digits a b) in
    bit_at-suc i (bit_or a b)
    ∙ ap (bit_at i) half
    ∙ or_bit i (a / 2) (b / 2)
    ∙ sym (ap₂ max (bit_at-suc i a) (bit_at-suc i b))

-- `~x` on `m` bits
pub not_bit : (i m x : ℕ) → i < m → x < 2 ^ m → bit_at i (2 ^ m - 1 - x) ≡ 1 - bit_at i x
not_bit i zero x h lt = absurd (omega arith)
not_bit zero (suc m) x h lt =
    omega (arith, bit_at_zero (2 ^ suc m - 1 - x), bit_at_zero x, pow-suc 2 m, lt)
not_bit (suc i) (suc m) x h lt =
    let half : (2 ^ suc m - 1 - x) / 2 ≡ 2 ^ m - 1 - x / 2 = omega (arith, pow-suc 2 m, lt) in
    bit_at-suc i (2 ^ suc m - 1 - x)
    ∙ ap (bit_at i) half
    ∙ not_bit i m (x / 2) (omega arith) (omega (arith, pow-suc 2 m, lt))
    ∙ ap (λ (t : ℕ). 1 - t) (sym (bit_at-suc i x))

pub mod_bit : (i m x : ℕ) → i < m → bit_at i (x % 2 ^ m) ≡ bit_at i x
mod_bit i zero x h = absurd (omega arith)
mod_bit zero (suc m) x h =
    omega (arith, bit_at_zero (x % 2 ^ suc m), bit_at_zero x, mod-pow_suc m x)
mod_bit (suc i) (suc m) x h =
    let half : x % 2 ^ suc m / 2 ≡ x / 2 % 2 ^ m = omega (arith, mod-pow_suc m x) in
    bit_at-suc i (x % 2 ^ suc m)
    ∙ ap (bit_at i) half
    ∙ mod_bit i m (x / 2) (omega arith)
    ∙ sym (bit_at-suc i x)

pub shift_bit : (i s x : ℕ) → bit_at i (x / 2 ^ s) ≡ bit_at (i + s) x
shift_bit i zero x = ap (bit_at i) (div-one x) ∙ ap (λ (t : ℕ). bit_at t x) (omega arith)
shift_bit i (suc s) x =
    ap (bit_at i) (div-pow_suc s x)
    ∙ shift_bit i s (x / 2)
    ∙ sym (bit_at-suc (i + s) x)
    ∙ ap (λ (t : ℕ). bit_at t x) (omega arith)
