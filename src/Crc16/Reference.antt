-- ===== src/Crc16/Reference.antt =====
-- What a CRC is: the remainder of the message, read as a polynomial over two elements, by
-- x^16 + x^15 + x^2 + 1, one message bit at a time and the high bit first. No table.
use yocto_layers.Common.{ℕ, zero, suc, ◌*◌, ◌^◌, bit_xor, List, [], ◌∷◌, ltb, u16, if◌then◌else◌}

-- x^15 + x^2 + 1, without the leading term
abbrev pub polynomial : ℕ
polynomial = 0x8005

-- Shift the register by one bit, and subtract the polynomial when a one falls out.
unfoldable pub shift_bit : ℕ → ℕ
shift_bit r = if ltb r (2 ^ 15) then 2 * r else bit_xor (u16 (2 * r)) polynomial

abbrev pub shift_bits : ℕ → ℕ → ℕ
shift_bits zero r = r
shift_bits (suc n) r = shift_bits n (shift_bit r)

unfoldable pub divide_byte : ℕ → ℕ → ℕ
divide_byte r byte = shift_bits 8 (bit_xor r (byte * 2 ^ 8))

unfoldable pub divide : ℕ → List ℕ → ℕ
divide r [] = r
divide r (byte ∷ rest) = divide (divide_byte r byte) rest
