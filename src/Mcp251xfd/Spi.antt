-- ===== src/Mcp251xfd/Spi.antt =====
-- The SPI commands of mcp251xfd.h and `mcp251xfd_cmd_prepare_write_reg`: the byte images that the
-- driver hands to the SPI controller.
pub mod Image
use yocto_layers.Common.{
  ℕ, zero, suc, ◌+◌, ◌-◌, ◌*◌, ◌/◌, ◌%◌, ◌^◌, ◌≤◌, ◌<◌, min, max, bit_and, bit_or, bit_xor, ◌≡◌,
  refl, sym, ap, ap₂, ◌∙◌, ◌≢◌, ◌↔◌, ◌⊎◌, inl, inr, Bool, true, false, not, ◌&&◌, ◌||◌, Option,
  none, some, List, [], ◌∷◌, ◌++◌, map, length, get_elem?, get_or, set, take, drop, replicate, ltb,
  leb, ◌==◌, if◌then◌else◌, Bool-cases, u8, u16, u32, sub32, arith,
}
use yocto_layers.Crc16.{crc16_compute}
use yocto_layers.Mcp251xfd.State.{Quirks}
use yocto_layers.Mcp251xfd.Regs
use yocto_layers.Mcp251xfd.Regs.{any_bit}

-- Which of its four bytes a mask reaches.
unfoldable pub first_byte_set : ℕ → ℕ
first_byte_set mask =
    if any_bit mask 0x0000ffff
    then (if any_bit mask 0x000000ff then 0 else 1)
    else (if any_bit mask 0x00ff0000 then 2 else 3)

unfoldable pub last_byte_set : ℕ → ℕ
last_byte_set mask =
    if any_bit mask 0xffff0000
    then (if any_bit mask 0xff000000 then 3 else 2)
    else (if any_bit mask 0x0000ff00 then 1 else 0)

-- The bytes of a __be16 and of a __le32.
abbrev pub be16 : ℕ → List ℕ
be16 w = (w / 2 ^ 8 % 2 ^ 8) ∷ (w % 2 ^ 8) ∷ []

abbrev pub le32 : ℕ → List ℕ
le32 w = (w % 2 ^ 8) ∷ (w / 2 ^ 8 % 2 ^ 8) ∷ (w / 2 ^ 16 % 2 ^ 8) ∷ (w / 2 ^ 24 % 2 ^ 8) ∷ []

unfoldable pub cmd_reset : ℕ
cmd_reset = Regs.spi_instruction_reset

-- The cmd fields, as the bytes that stand in the buffer.
unfoldable pub cmd_read_nocrc : ℕ → List ℕ
cmd_read_nocrc addr = be16 (bit_or Regs.spi_instruction_read addr)

unfoldable pub cmd_write_nocrc : ℕ → List ℕ
cmd_write_nocrc addr = be16 (bit_or Regs.spi_instruction_write addr)

unfoldable pub reg_in_ram : ℕ → Bool
reg_in_ram reg = leb Regs.ram_start reg && leb reg (Regs.ram_start + Regs.ram_size - 4)

-- The u8 length field: words in RAM, bytes elsewhere.
unfoldable pub cmd_crc_set_len : ℕ → Bool → ℕ
cmd_crc_set_len len in_ram = if in_ram then u8 (len / 2 ^ 2) else u8 len

unfoldable pub cmd_crc_set_len_in_ram : ℕ → ℕ
unfolding cmd_crc_set_len
cmd_crc_set_len_in_ram len = cmd_crc_set_len len true

unfoldable pub cmd_crc_set_len_in_reg : ℕ → ℕ
unfolding cmd_crc_set_len
cmd_crc_set_len_in_reg len = cmd_crc_set_len len false

unfoldable pub cmd_read_crc_set_addr : ℕ → List ℕ
cmd_read_crc_set_addr addr = be16 (bit_or Regs.spi_instruction_read_crc addr)

unfoldable pub cmd_read_crc : ℕ → ℕ → List ℕ
unfolding cmd_read_crc_set_addr cmd_crc_set_len reg_in_ram
cmd_read_crc addr len = cmd_read_crc_set_addr addr ++ cmd_crc_set_len len (reg_in_ram addr) ∷ []

unfoldable pub cmd_write_crc_set_addr : ℕ → List ℕ
cmd_write_crc_set_addr addr = be16 (bit_or Regs.spi_instruction_write_crc addr)

unfoldable pub cmd_write_crc : ℕ → ℕ → List ℕ
unfolding cmd_write_crc_set_addr cmd_crc_set_len reg_in_ram
cmd_write_crc addr len = cmd_write_crc_set_addr addr ++ cmd_crc_set_len len (reg_in_ram addr) ∷ []

-- `mcp251xfd_spi_cmd_write`: the command for a register write, with the checksum or without.
unfoldable pub spi_cmd_write : Quirks → ℕ → List ℕ
unfolding cmd_write_crc_set_addr cmd_write_nocrc
spi_cmd_write quirks addr =
    if quirks.crc_reg then cmd_write_crc_set_addr addr else cmd_write_nocrc addr

-- A prepared buffer: its bytes as far as they are written, and the length that is returned.
pub record Prepared : Type 0 where
  pub buf : List ℕ
  pub len : ℕ

-- `last_byte - first_byte + 1` on u8
unfoldable pub byte_count : ℕ → ℕ
unfolding first_byte_set last_byte_set
byte_count mask = u8 (last_byte_set mask + 2 ^ 8 - first_byte_set mask + 1)

unfoldable pub cmd_prepare_write_reg : Quirks → ℕ → ℕ → ℕ → Prepared
unfolding first_byte_set byte_count spi_cmd_write cmd_crc_set_len_in_reg
cmd_prepare_write_reg quirks reg mask val =
    let first_byte = first_byte_set mask in
    let len = byte_count mask in
    let cmd = spi_cmd_write quirks (u16 (reg + first_byte)) in
    let bytes = take len (le32 (val / 2 ^ (8 * first_byte))) in
    if quirks.crc_reg
    then (let image = cmd ++ cmd_crc_set_len_in_reg len ∷ bytes in
        let crc = crc16_compute (take (len + 3) image) in
        record { buf = image ++ be16 crc; len = u8 (len + 3 + 2) })
    else record { buf = cmd ++ bytes; len = u8 (len + 2) }
