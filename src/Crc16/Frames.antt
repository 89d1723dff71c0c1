-- ===== src/Crc16/Frames.antt =====
-- The checksum of several buffers in a row and of a buffer with its checksum behind it
-- (mcp251xfd-crc16.c, as mcp251xfd-regmap.c and the SPI commands use it).
use yocto_layers.Common.{
  ℕ, ◌*◌, ◌/◌, ◌%◌, ◌^◌, ◌<◌, ◌≡◌, refl, sym, ap, ◌∙◌, List, [], ◌∷◌, ◌++◌, arith,
}
use yocto_layers.Common.Xor.{xor_self, xor-zero}
use yocto_layers.Crc16.{crc16_byte, crc16, crc16_compute, crc16_compute2}

crc16-append : (crc : ℕ) (xs ys : List ℕ) → crc16 crc (xs ++ ys) ≡ crc16 (crc16 crc xs) ys
unfolding crc16
crc16-append crc [] ys = refl
crc16-append crc (x ∷ xs) ys = crc16-append (crc16_byte crc x) xs ys

-- The checksum over a command and a separate payload is the one over the whole frame.
pub crc16_compute2-append :
    (cmd payload : List ℕ) → crc16_compute2 cmd payload ≡ crc16_compute (cmd ++ payload)
unfolding crc16_compute crc16_compute2
crc16_compute2-append cmd payload = sym (crc16-append 0xffff cmd payload)

-- The big-endian bytes of a 16-bit word, as `put_unaligned_be16` stores them.
abbrev pub be16 : ℕ → List ℕ
be16 w = (w / 2 ^ 8) ∷ (w % 2 ^ 8) ∷ []

crc16_byte-lt : (crc x : ℕ) → crc16_byte crc x < 2 ^ 16
unfolding crc16_byte
crc16_byte-lt crc x = omega arith

crc16_byte_high : (crc : ℕ) → crc < 2 ^ 16 → crc16_byte crc (crc / 2 ^ 8) ≡ crc % 2 ^ 8 * 2 ^ 8
unfolding crc16_byte
crc16_byte_high crc p = rw (xor_self (crc / 2 ^ 8), xor-zero (crc * 2 ^ 8)) (omega arith)

crc16-lt : (crc : ℕ) (xs : List ℕ) → crc < 2 ^ 16 → crc16 crc xs < 2 ^ 16
unfolding crc16
crc16-lt crc [] p = p
crc16-lt crc (x ∷ xs) p = crc16-lt (crc16_byte crc x) xs (crc16_byte-lt crc x)

crc16-be16 : (crc : ℕ) → crc < 2 ^ 16 → crc16 crc (be16 crc) ≡ 0
unfolding crc16
crc16-be16 crc p =
    let low = crc % 2 ^ 8 in
    let high : low * 2 ^ 8 / 2 ^ 8 ≡ low = omega arith in
    let rest : low * 2 ^ 8 % 2 ^ 8 * 2 ^ 8 ≡ 0 = omega arith in
    let last : crc16_byte (low * 2 ^ 8) low ≡ 0 =
      ap (crc16_byte (low * 2 ^ 8)) (sym high)
      ∙ crc16_byte_high (low * 2 ^ 8) (omega arith)
      ∙ rest in
    rw (crc16_byte_high crc p) last

pub crc16_compute-lt : (bytes : List ℕ) → crc16_compute bytes < 2 ^ 16
unfolding crc16_compute
crc16_compute-lt bytes = crc16-lt 0xffff bytes (omega arith)

-- A buffer followed by its own checksum has checksum zero.
pub crc16_compute_residue :
    (frame : List ℕ) → crc16_compute (frame ++ be16 (crc16_compute frame)) ≡ 0
unfolding crc16_compute
crc16_compute_residue frame =
    crc16-append 0xffff frame (be16 (crc16 0xffff frame))
    ∙ crc16-be16 (crc16 0xffff frame) (crc16-lt 0xffff frame (omega arith))
