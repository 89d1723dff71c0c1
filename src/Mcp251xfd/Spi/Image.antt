-- ===== src/Mcp251xfd/Spi/Image.antt =====
-- The images that mcp251xfd_cmd_prepare_write_reg builds.
use yocto_layers.Common.{
  ℕ, ◌+◌, ◌*◌, ◌/◌, ◌%◌, ◌^◌, ◌≤◌, ◌<◌, ◌≡◌, ◌≢◌, ap, ◌∙◌, true, List, [], ◌∷◌, ◌++◌, length, take,
  take-length, length-take, u8, u16, length-append, arith,
}
use yocto_layers.Common.Words.{and_field}
use yocto_layers.Crc16.{crc16_compute}
use yocto_layers.Crc16.Frames.{crc16_compute_residue, crc16_compute-lt}
use yocto_layers.Mcp251xfd.State.{Quirks}
use yocto_layers.Mcp251xfd.Spi.{
  first_byte_set, last_byte_set, byte_count, cmd_prepare_write_reg, spi_cmd_write,
  cmd_write_crc_set_addr, cmd_crc_set_len_in_reg, le32, be16,
}

-- Of a mask of 32 bits that is not empty, the bytes from the first to the last are counted: the mask
-- has no bit before the first byte and one in it, and none past the last byte and one in it.
pub byte_count_window :
    (mask : ℕ)
    → mask ≢ 0
    → mask < 2 ^ 32
    → (byte_count mask + first_byte_set mask ≡ last_byte_set mask + 1)
      × (last_byte_set mask ≤ 3)
      × (mask % 2 ^ (8 * first_byte_set mask) ≡ 0)
      × (mask < 2 ^ (8 * (last_byte_set mask + 1)))
      × (mask / 2 ^ (8 * first_byte_set mask) % 2 ^ 8 ≢ 0)
      × (mask / 2 ^ (8 * last_byte_set mask) ≢ 0)
unfolding byte_count first_byte_set last_byte_set
byte_count_window mask some small =
    let b0 = and_field 0 8 mask in
    let b1 = and_field 8 8 mask in
    let b2 = and_field 16 8 mask in
    let b3 = and_field 24 8 mask in
    let lo = and_field 0 16 mask in
    let hi = and_field 16 16 mask in
    (
      ground (arith, some, small, b0, b1, b2, b3, lo, hi),
      ground arith,
      ground (arith, some, small, b0, b1, b2, b3, lo, hi),
      ground (arith, some, small, b0, b1, b2, b3, lo, hi),
      ground (arith, some, small, b0, b1, b2, b3, lo, hi),
      ground (arith, some, small, b0, b1, b2, b3, lo, hi),
    )

pub count_small : (mask : ℕ) → mask ≢ 0 → mask < 2 ^ 32 → byte_count mask ≤ 4
count_small mask some small = let w = byte_count_window mask some small in omega (arith, w.0, w.1)

-- A frame with its checksum behind it, in the bytes that the driver stores.
pub residue : (image : List ℕ) → crc16_compute (image ++ be16 (crc16_compute image)) ≡ 0
residue image =
    let c = crc16_compute image in
    let high : c / 2 ^ 8 % 2 ^ 8 ≡ c / 2 ^ 8 = omega (arith, crc16_compute-lt image) in
    ap (λ (t : ℕ). crc16_compute (image ++ t ∷ (c % 2 ^ 8) ∷ [])) high ∙ crc16_compute_residue image

residue_of_first :
    (image : List ℕ) (n : ℕ)
    → length image ≡ n
    → crc16_compute (image ++ be16 (crc16_compute (take n image))) ≡ 0
residue_of_first image n e =
    ap (λ (t : List ℕ). crc16_compute (image ++ be16 (crc16_compute t))) (take-length n image e)
    ∙ residue image

-- On a chip that checks register accesses, the buffer prepared for a mask of 32 bits that is not
-- empty has the length that is returned, and leaves no remainder under the checksum.
pub cmd_prepare_write_reg_lem :
    (quirks : Quirks) (reg mask val : ℕ)
    → quirks.crc_reg ≡ true
    → mask ≢ 0
    → mask < 2 ^ 32
    → (length (cmd_prepare_write_reg quirks reg mask val).buf
        ≡ (cmd_prepare_write_reg quirks reg mask val).len)
      × (crc16_compute (cmd_prepare_write_reg quirks reg mask val).buf ≡ 0)
unfolding cmd_prepare_write_reg spi_cmd_write cmd_write_crc_set_addr
cmd_prepare_write_reg_lem quirks reg mask val crc some small =
    let len = byte_count mask in
    let first = first_byte_set mask in
    let addr = u16 (reg + first) in
    let bytes : List ℕ = take len (le32 (val / 2 ^ (8 * first))) in
    let image : List ℕ = cmd_write_crc_set_addr addr ++ cmd_crc_set_len_in_reg len ∷ bytes in
    let few : len ≤ 4 = count_small mask some small in
    let n : length bytes ≡ len = length-take len (le32 (val / 2 ^ (8 * first))) few in
    let size : length image ≡ len + 3 = omega (arith, n) in
    let whole : length (image ++ be16 (crc16_compute (take (len + 3) image))) ≡ u8 (len + 3 + 2) =
      omega (arith, length-append image (be16 (crc16_compute (take (len + 3) image))), size, few) in
    rw crc (whole, residue_of_first image (len + 3) size)
