-- ===== src/Crc16/Division.antt =====
-- The table of mcp251xfd-crc16.c against the division of Reference.antt. Eight shifts of a register
-- split into those of its high byte, for which the table stands, and a plain shift of its low byte.
use yocto_layers.Common.{
  ℕ, zero, suc, ◌+◌, ◌*◌, ◌/◌, ◌%◌, ◌^◌, ◌≤◌, ◌<◌, bit_xor, ◌≡◌, if◌then◌else◌, refl, sym, ◌∙◌, ap,
  ap₂, Bool, true, List, [], ◌∷◌, get_or, inl, inr, Bool-cases, false, ltb, ◌==◌, u16, ==_iff, u8,
  arith,
}
use native.Mathlib.Nat.{pow-suc}
use yocto_layers.Common.Xor.{
  xor-zero, xor_comm, xor_assoc, xor-double, xor_parts, xor_fields, xor-lt,
}
use yocto_layers.Crc16.Table.{crc16_table}
use yocto_layers.Crc16.{crc16_byte, crc16}
use yocto_layers.Crc16.Reference.{shift_bit, shift_bits, divide_byte, divide, polynomial}

-- A byte of the list is a number below 256.
abbrev pub IsBytes : List ℕ → Type 0
IsBytes [] = 0 ≤ 0
IsBytes (b ∷ bs) = (b < 256) × IsBytes bs

every : (ℕ → Bool) → (count : ℕ) → Bool
every holds zero = true
every holds (suc k) = if holds k then every holds k else false

every_lem : (holds : ℕ → Bool) (count i : ℕ) → i < count → every holds count ≡ true → holds i ≡ true
unfolding every
every_lem holds zero i lt all = absurd (omega arith)
every_lem holds (suc k) i lt all = ground (arith, every_lem holds k i)

-- The table holds the eight shifts of each high byte.
table_checked : every (λ h. shift_bits 8 (h * 2 ^ 8) == get_or crc16_table h 0) 256 ≡ true
unfolding every shift_bit crc16_table
table_checked = refl

shift_bits-high : (h : ℕ) → h < 256 → shift_bits 8 (h * 2 ^ 8) ≡ get_or crc16_table h 0
shift_bits-high h p = (==_iff _ _).0 (every_lem _ 256 h p table_checked)

-- The top bit of a sum with a low word is that of the high word.
xor-low : (x y : ℕ) → y < 2 ^ 15 → bit_xor x y ≡ x / 2 ^ 15 * 2 ^ 15 + bit_xor (x % 2 ^ 15) y
xor-low x y p =
    let e : x / 2 ^ 15 * 2 ^ 15 + x % 2 ^ 15 ≡ x = omega arith in
    let parts : bit_xor (x / 2 ^ 15 * 2 ^ 15 + x % 2 ^ 15) (0 * 2 ^ 15 + y) ≡ bit_xor x y =
      ap₂ bit_xor e (omega arith) in
    omega (
      arith,
      xor_fields 15 (x / 2 ^ 15) 0 (x % 2 ^ 15) y (omega arith) p,
      xor-zero (x / 2 ^ 15),
      parts,
    )

swap_last : (a b c : ℕ) → bit_xor (bit_xor a b) c ≡ bit_xor (bit_xor a c) b
swap_last a b c = cc (xor_assoc a b c, xor_comm b c, xor_assoc a c b)

shift_bit-xor :
    (x y : ℕ) → x < 2 ^ 16 → y < 2 ^ 15 → shift_bit (bit_xor x y) ≡ bit_xor (shift_bit x) (2 * y)
unfolding shift_bit
shift_bit-xor x y p q = elim (Bool-cases (ltb x (2 ^ 15))) [
  | inl low ↦ ground (arith, xor-lt 15 x y, xor-double x y)
  | inr high ↦
      let x' = x % 2 ^ 15 in
      let top : x ≡ 2 ^ 15 + x' = ground arith in
      let sum : bit_xor x y ≡ 2 ^ 15 + bit_xor x' y = ground (arith, xor-low x y q) in
      let bound = xor-lt 15 x' y (omega arith) q in
      let left : u16 (2 * bit_xor x y) ≡ bit_xor (2 * x') (2 * y) =
        ground (arith, xor-double x' y) in
      let right : u16 (2 * x) ≡ 2 * x' = omega arith in
      let big : ltb (bit_xor x y) (2 ^ 15) ≡ false = ground arith in
      rw (high, big, left, right) (swap_last (2 * x') (2 * y) polynomial)
]

shift_bit-lt : (x : ℕ) → x < 2 ^ 16 → shift_bit x < 2 ^ 16
unfolding shift_bit
shift_bit-lt x p = ground (arith, xor-lt 16 (u16 (2 * x)) polynomial)

shift_bits-lt : (n x : ℕ) → x < 2 ^ 16 → shift_bits n x < 2 ^ 16
shift_bits-lt zero x p = p
shift_bits-lt (suc n) x p = shift_bits-lt n (shift_bit x) (shift_bit-lt x p)

le-mul-pow : (n y : ℕ) → y ≤ y * 2 ^ n
le-mul-pow zero y = omega arith
le-mul-pow (suc n) y = omega (arith, le-mul-pow n y, ap (λ (t : ℕ). y * t) (pow-suc 2 n))

-- A low word `y` that stays below the top bit for `n` shifts is only moved up.
shift_bits-xor :
    (n x y : ℕ)
    → x < 2 ^ 16
    → y * 2 ^ n < 2 ^ 16
    → shift_bits n (bit_xor x y) ≡ bit_xor (shift_bits n x) (y * 2 ^ n)
shift_bits-xor zero x y p q = ap (bit_xor x) (omega arith)
shift_bits-xor (suc n) x y p q =
    let small : y < 2 ^ 15 = omega (arith, le-mul-pow n y, ap (λ (t : ℕ). y * t) (pow-suc 2 n)) in
    rw (shift_bit-xor x y p small) (
      shift_bits-xor n (shift_bit x) (2 * y) (shift_bit-lt x p) (omega (arith, again))
      ∙ ap (bit_xor (shift_bits n (shift_bit x))) (omega (arith, again)))
  where
    again : 2 * y * 2 ^ n ≡ y * 2 ^ suc n
    again = omega (arith, ap (λ (t : ℕ). y * t) (pow-suc 2 n))

-- A division step shifts the sum of the message byte and the high byte, and moves up the low byte.
divide_byte_parts :
    (r b : ℕ)
    → r < 2 ^ 16
    → b < 256
    → divide_byte r b ≡ bit_xor (get_or crc16_table (bit_xor (r / 2 ^ 8) b) 0) (r % 2 ^ 8 * 2 ^ 8)
unfolding divide_byte
divide_byte_parts r b p q = rw inside (
    shift_bits-xor 8 (sum * 2 ^ 8) low (omega (arith, bound)) (omega arith)
    ∙ ap (λ t. bit_xor t (low * 2 ^ 8)) (shift_bits-high sum bound))
  where
    low : ℕ
    low = r % 2 ^ 8

    sum : ℕ
    sum = bit_xor (r / 2 ^ 8) b

    bound : sum < 256
    bound = xor-lt 8 (r / 2 ^ 8) b (omega arith) q

    -- both sides are the word with high byte `sum` and low byte `low`
    inside : bit_xor r (b * 2 ^ 8) ≡ bit_xor (sum * 2 ^ 8) low
    inside = omega (
      arith,
      xor_parts 8 (r / 2 ^ 8) b low 0 {x = r} {y = b * 2 ^ 8} (omega arith) (omega arith)
          (omega arith) (omega arith),
      xor_parts 8 sum 0 0 low {x = sum * 2 ^ 8} {y = low} (omega arith) (omega arith) (omega arith)
          (omega arith),
      xor-zero low,
      xor-zero sum,
      xor_comm 0 low,
    )

-- One step of the table computes eight steps of the division.
pub crc16_byte-eq-divide_byte :
    (crc byte : ℕ) → crc < 2 ^ 16 → byte < 256 → crc16_byte crc byte ≡ divide_byte crc byte
unfolding crc16_byte
crc16_byte-eq-divide_byte crc byte p q = rw (index, cut) (sym (divide_byte_parts crc byte p q))
  where
    sum : ℕ
    sum = bit_xor (crc / 2 ^ 8) byte

    bound : sum < 256
    bound = xor-lt 8 (crc / 2 ^ 8) byte (omega arith) q

    index : u8 sum ≡ sum
    index = omega (arith, bound)

    entry : ℕ
    entry = get_or crc16_table sum 0

    entry-lt : entry < 2 ^ 16
    entry-lt =
        rw (← shift_bits-high sum bound) (shift_bits-lt 8 (sum * 2 ^ 8) (omega (arith, bound)))

    cut : u16 (bit_xor (crc * 2 ^ 8) entry) ≡ bit_xor entry (crc % 2 ^ 8 * 2 ^ 8)
    cut = omega (
      arith,
      xor_parts 16 (crc / 2 ^ 8) 0 (crc % 2 ^ 8 * 2 ^ 8) entry {x = crc * 2 ^ 8} {y = entry}
          (omega arith) (omega arith) (omega arith) entry-lt,
      xor-lt 16 (crc % 2 ^ 8 * 2 ^ 8) entry (omega arith) entry-lt,
      xor_comm (crc % 2 ^ 8 * 2 ^ 8) entry,
    )

divide_byte-lt : (r b : ℕ) → r < 2 ^ 16 → b < 256 → divide_byte r b < 2 ^ 16
unfolding divide_byte
divide_byte-lt r b p q =
    shift_bits-lt 8 (bit_xor r (b * 2 ^ 8)) (xor-lt 16 r (b * 2 ^ 8) p (omega arith))

-- The table-driven checksum of a buffer of bytes is its division by the polynomial, from any register
-- of 16 bits.
pub crc16-eq-divide :
    (crc : ℕ) (buffer : List ℕ)
    → crc < 2 ^ 16
    → IsBytes buffer
    → crc16 crc buffer ≡ divide crc buffer
unfolding crc16 divide
crc16-eq-divide crc [] p h = refl
crc16-eq-divide crc (b ∷ bs) p h =
    rw (crc16_byte-eq-divide_byte crc b p h.0)
      (crc16-eq-divide (divide_byte crc b) bs (divide_byte-lt crc b p h.0) h.1)
