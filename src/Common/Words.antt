-- ===== src/Common/Words.antt =====
-- The bits of a word made by `|`, and `&` with the mask of a bit field.
use Prim.Native.Nat.{ℕ, zero, suc, ◌+◌, ◌-◌, ◌*◌, ◌/◌, ◌%◌, ◌^◌, ◌≤◌, bit_and, bit_or}
use mathlib.Core.Path.{◌≡◌, refl, sym, ap, ap₂, ◌∙◌}
use native.Mathlib.Omega.{arith}
use native.Mathlib.Nat.{pow-suc, div-div-eq-div-mul, div-add-mod, mod-one, div-one}
use yocto_layers.Common.Bits.{and_digit, or_digits}
use yocto_layers.Common.Fields.{and_mask, or-zero}

or_comm_below : (n a b : ℕ) → a + b ≤ n → bit_or a b ≡ bit_or b a
or_comm_below zero a b h = let p : a ≡ b = omega arith in ap₂ bit_or p (omega arith)
or_comm_below (suc n) zero zero h = refl
or_comm_below (suc n) zero (suc b) h = omega (
  arith,
  or_digits 0 (suc b),
  or_digits (suc b) 0,
  or_comm_below n (0 / 2) (suc b / 2) (omega arith),
)
or_comm_below (suc n) (suc a) b h = omega (
  arith,
  or_digits (suc a) b,
  or_digits b (suc a),
  or_comm_below n (suc a / 2) (b / 2) (omega arith),
)

pub or_comm : (a b : ℕ) → bit_or a b ≡ bit_or b a
or_comm a b = or_comm_below (a + b) a b (omega arith)

pub zero-or : (a : ℕ) → bit_or 0 a ≡ a
zero-or a = or_comm 0 a ∙ or-zero a

-- A shift and a mask of one more bit.
pub div-pow_suc : (k x : ℕ) → x / 2 ^ suc k ≡ x / 2 / 2 ^ k
div-pow_suc k x =
    let two : 2 ^ suc k ≡ 2 * 2 ^ k = omega (arith, pow-suc 2 k) in
    ap (λ (t : ℕ). x / t) two ∙ sym (div-div-eq-div-mul x 2 (2 ^ k))

pub mod-pow_suc : (k x : ℕ) → x % 2 ^ suc k ≡ x / 2 % 2 ^ k * 2 + x % 2
mod-pow_suc k x =
    let word : 2 ^ suc k * (x / 2 ^ suc k) ≡ 2 ^ k * 2 * (x / 2 / 2 ^ k) =
      ap₂ ◌*◌ (pow-suc 2 k) (div-pow_suc k x) in
    omega (arith, word, div-add-mod x (2 ^ suc k), div-add-mod (x / 2) (2 ^ k))

or_half : (a b : ℕ) → bit_or a b / 2 ≡ bit_or (a / 2) (b / 2)
or_half a b = omega (arith, or_digits a b)

pub or_div : (k a b : ℕ) → bit_or a b / 2 ^ k ≡ bit_or (a / 2 ^ k) (b / 2 ^ k)
or_div zero a b = div-one (bit_or a b) ∙ sym (ap₂ bit_or (div-one a) (div-one b))
or_div (suc k) a b =
    div-pow_suc k (bit_or a b)
    ∙ ap (λ (t : ℕ). t / 2 ^ k) (or_half a b)
    ∙ or_div k (a / 2) (b / 2)
    ∙ sym (ap₂ bit_or (div-pow_suc k a) (div-pow_suc k b))

pub or_mod : (k a b : ℕ) → bit_or a b % 2 ^ k ≡ bit_or (a % 2 ^ k) (b % 2 ^ k)
or_mod zero a b = mod-one (bit_or a b) ∙ sym (ap₂ bit_or (mod-one a) (mod-one b))
or_mod (suc k) a b =
    let ha : a % 2 ^ suc k / 2 ≡ a / 2 % 2 ^ k = omega (arith, mod-pow_suc k a) in
    let hb : b % 2 ^ suc k / 2 ≡ b / 2 % 2 ^ k = omega (arith, mod-pow_suc k b) in
    omega (
      arith,
      mod-pow_suc k (bit_or a b),
      mod-pow_suc k a,
      mod-pow_suc k b,
      or_digits a b,
      or_digits (a % 2 ^ suc k) (b % 2 ^ suc k),
      ap (λ (t : ℕ). t % 2 ^ k) (or_half a b),
      or_mod k (a / 2) (b / 2),
      ap₂ bit_or ha hb,
    )

-- `a & GENMASK(l + w - 1, l)`
pub and_field : (l w a : ℕ) → bit_and a ((2 ^ w - 1) * 2 ^ l) ≡ a / 2 ^ l % 2 ^ w * 2 ^ l
and_field zero w a =
    let one : (2 ^ w - 1) * 2 ^ 0 ≡ 2 ^ w - 1 = omega arith in
    let word : a / 2 ^ 0 ≡ a = div-one a in
    omega (arith, ap (bit_and a) one, and_mask w a, ap (λ (t : ℕ). t % 2 ^ w) word)
and_field (suc l) w a =
    let mask : (2 ^ w - 1) * 2 ^ suc l ≡ (2 ^ w - 1) * 2 ^ l * 2 =
      ap (λ (t : ℕ). (2 ^ w - 1) * t) (pow-suc 2 l) ∙ omega arith in
    let half : (2 ^ w - 1) * 2 ^ suc l / 2 ≡ (2 ^ w - 1) * 2 ^ l = omega (arith, mask) in
    let word : a / 2 ^ suc l % 2 ^ w * 2 ^ suc l ≡ a / 2 / 2 ^ l % 2 ^ w * (2 ^ l * 2) =
      ap₂ (λ (x y : ℕ). x % 2 ^ w * y) (div-pow_suc l a) (pow-suc 2 l) in
    omega (
      arith,
      mask,
      word,
      and_digit a ((2 ^ w - 1) * 2 ^ suc l),
      ap (bit_and (a / 2)) half,
      and_field l w (a / 2),
    )
