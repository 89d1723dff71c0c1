-- ===== src/Common/Xor.antt =====
-- The algebra of `^`: a commutative group in which every element is its own inverse, and which
-- works on the two halves of a word separately.
use Prim.Native.Nat.{ℕ, zero, suc, ◌+◌, ◌*◌, ◌/◌, ◌%◌, ◌^◌, ◌≤◌, ◌<◌, bit_xor}
use mathlib.Core.Path.{◌≡◌, refl, ap, ap₂, ◌∙◌}
use native.Mathlib.Omega.{arith}
use native.Mathlib.Nat.{pow-suc}
use yocto_layers.Common.Bits.{xor_digits}

-- Each law goes from the halved operands to the operands: induction on a bound.
xor-zero_below : (n a : ℕ) → a ≤ n → bit_xor a 0 ≡ a
xor-zero_below n zero h = refl
xor-zero_below zero (suc a) h = absurd (omega arith)
xor-zero_below (suc n) (suc a) h =
    omega (arith, xor_digits (suc a) 0, xor-zero_below n (suc a / 2) (omega arith))

pub xor-zero : (a : ℕ) → bit_xor a 0 ≡ a
xor-zero a = xor-zero_below a a (omega arith)

xor_self_below : (n a : ℕ) → a ≤ n → bit_xor a a ≡ 0
xor_self_below n zero h = refl
xor_self_below zero (suc a) h = absurd (omega arith)
xor_self_below (suc n) (suc a) h =
    omega (arith, xor_digits (suc a) (suc a), xor_self_below n (suc a / 2) (omega arith))

pub xor_self : (a : ℕ) → bit_xor a a ≡ 0
xor_self a = xor_self_below a a (omega arith)

xor_comm_below : (n a b : ℕ) → a + b ≤ n → bit_xor a b ≡ bit_xor b a
xor_comm_below zero a b h = let p : a ≡ b = omega arith in ap₂ bit_xor p (omega arith)
xor_comm_below (suc n) zero zero h = refl
xor_comm_below (suc n) zero (suc b) h = omega (
  arith,
  xor_digits 0 (suc b),
  xor_digits (suc b) 0,
  xor_comm_below n (0 / 2) (suc b / 2) (omega arith),
)
xor_comm_below (suc n) (suc a) b h = omega (
  arith,
  xor_digits (suc a) b,
  xor_digits b (suc a),
  xor_comm_below n (suc a / 2) (b / 2) (omega arith),
)

pub xor_comm : (a b : ℕ) → bit_xor a b ≡ bit_xor b a
xor_comm a b = xor_comm_below (a + b) a b (omega arith)

-- A digit of a sum of digits, whichever way it is bracketed.
xor_digit : (a b : ℕ) → bit_xor a b % 2 ≡ (a % 2 + b % 2) % 2
xor_digit a b = omega (arith, xor_digits a b)

xor_half : (a b : ℕ) → bit_xor a b / 2 ≡ bit_xor (a / 2) (b / 2)
xor_half a b = omega (arith, xor_digits a b)

xor_assoc_below : (n a b c : ℕ) → a + b + c ≤ n → bit_xor (bit_xor a b) c ≡ bit_xor a (bit_xor b c)
xor_assoc_below zero a b c h =
    let p : a ≡ 0 = omega arith in
    let q : b ≡ 0 = omega arith in let r : c ≡ 0 = omega arith in rw (p, q, r) refl
xor_assoc_below (suc n) a b c h = omega (
  arith,
  xor_digits (bit_xor a b) c,
  xor_digits a (bit_xor b c),
  xor_digit a b,
  xor_digit b c,
  ap (λ (t : ℕ). bit_xor t (c / 2)) (xor_half a b),
  ap (λ (t : ℕ). bit_xor (a / 2) t) (xor_half b c),
  xor_assoc_below n (a / 2) (b / 2) (c / 2) (omega arith),
)

pub xor_assoc : (a b c : ℕ) → bit_xor (bit_xor a b) c ≡ bit_xor a (bit_xor b c)
xor_assoc a b c = xor_assoc_below (a + b + c) a b c (omega arith)

pub xor-double : (a b : ℕ) → bit_xor (2 * a) (2 * b) ≡ 2 * bit_xor a b
xor-double a b =
    let p : 2 * a / 2 ≡ a = omega arith in
    let q : 2 * b / 2 ≡ b = omega arith in
    let s = xor_digits (2 * a) (2 * b) in omega (arith, s, ap₂ bit_xor p q)

-- The operation works on the high parts and the low `k` bits separately.
pub xor_fields :
    (k a b r s : ℕ)
    → r < 2 ^ k
    → s < 2 ^ k
    → bit_xor (a * 2 ^ k + r) (b * 2 ^ k + s) ≡ bit_xor a b * 2 ^ k + bit_xor r s
xor_fields zero a b r s p q =
    let p' : r ≡ 0 = omega arith in
    let q' : s ≡ 0 = omega arith in
    let ea : a * 1 + 0 ≡ a = omega arith in
    let eb : b * 1 + 0 ≡ b = omega arith in rw (p', q', ea, eb) (omega arith)
xor_fields (suc k) a b r s p q =
    let ha : (a * 2 ^ suc k + r) / 2 ≡ a * 2 ^ k + r / 2 =
      omega (arith, ap (λ (t : ℕ). a * t) (pow-suc 2 k)) in
    let hb : (b * 2 ^ suc k + s) / 2 ≡ b * 2 ^ k + s / 2 =
      omega (arith, ap (λ (t : ℕ). b * t) (pow-suc 2 k)) in
    omega (
      arith,
      xor_digits (a * 2 ^ suc k + r) (b * 2 ^ suc k + s),
      ap₂ bit_xor ha hb,
      xor_fields k a b (r / 2) (s / 2) (omega (arith, pow-suc 2 k)) (omega (arith, pow-suc 2 k)),
      xor_digits r s,
      ap (λ (t : ℕ). a * t) (pow-suc 2 k),
      ap (λ (t : ℕ). b * t) (pow-suc 2 k),
      ap (λ (t : ℕ). bit_xor a b * t) (pow-suc 2 k),
    )

-- Two words of `k` bits give a word of `k` bits.
pub xor-lt : (k a b : ℕ) → a < 2 ^ k → b < 2 ^ k → bit_xor a b < 2 ^ k
xor-lt zero a b p q =
    let p' : a ≡ 0 = omega arith in let q' : b ≡ 0 = omega arith in rw (p', q') (omega arith)
xor-lt (suc k) a b p q = omega (
  arith,
  pow-suc 2 k,
  xor_digits a b,
  xor-lt k (a / 2) (b / 2) (omega (arith, pow-suc 2 k)) (omega (arith, pow-suc 2 k)),
)

-- The same for words given by their parts.
pub xor_parts :
    (k a b r s : ℕ) {x y : ℕ}
    → x ≡ a * 2 ^ k + r
    → y ≡ b * 2 ^ k + s
    → r < 2 ^ k
    → s < 2 ^ k
    → bit_xor x y ≡ bit_xor a b * 2 ^ k + bit_xor r s
xor_parts k a b r s e f p q = ap₂ bit_xor e f ∙ xor_fields k a b r s p q
