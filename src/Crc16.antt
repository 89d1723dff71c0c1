-- ===== src/Crc16.antt =====
-- mcp251xfd-crc16.c: the checksum of every SPI transfer that carries one. A buffer is the list of its
-- bytes, so the size that the C functions take beside a pointer is the length of the list.
mod Table
pub mod Reference
pub mod Division
pub mod Frames
unfoldable pub use Table.{crc16_table}
use yocto_layers.Common.{ℕ, ◌*◌, ◌/◌, ◌^◌, bit_xor, List, [], ◌∷◌, get_or, u8, u16}

-- `index` is a u8 and the result is cut to a u16.
unfoldable pub crc16_byte : ℕ → ℕ → ℕ
unfolding crc16_table
crc16_byte crc byte =
    let index = u8 (bit_xor (crc / 2 ^ 8) byte) in
    u16 (bit_xor (crc * 2 ^ 8) (get_or crc16_table index 0))

unfoldable pub crc16 : ℕ → List ℕ → ℕ
unfolding crc16_byte
crc16 crc [] = crc
crc16 crc (byte ∷ buffer) = crc16 (crc16_byte crc byte) buffer

unfoldable pub crc16_compute : List ℕ → ℕ
unfolding crc16
crc16_compute bytes = crc16 0xffff bytes

unfoldable pub crc16_compute2 : List ℕ → List ℕ → ℕ
unfolding crc16 crc16_compute
crc16_compute2 cmd bytes = crc16 (crc16_compute cmd) bytes
