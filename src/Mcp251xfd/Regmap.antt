-- ===== src/Mcp251xfd/Regmap.antt =====
-- mcp251xfd-regmap.c: what regmap calls to read and write the chip over SPI.
pub mod Retry
pub mod Update
use yocto_layers.Common.{
  ℕ, zero, suc, ◌+◌, ◌-◌, ◌*◌, ◌/◌, ◌%◌, ◌^◌, ◌≤◌, ◌<◌, min, max, bit_and, bit_or, bit_xor, ◌≡◌,
  refl, sym, ap, ap₂, ◌∙◌, ◌≢◌, ◌↔◌, ◌⊎◌, inl, inr, Bool, true, false, not, ◌&&◌, ◌||◌, Option,
  none, some, List, [], ◌∷◌, ◌++◌, map, length, get_elem?, get_or, set, take, drop, replicate, ltb,
  leb, ◌==◌, if◌then◌else◌, Bool-cases, u8, u16, u32, sub32, arith,
}
use yocto_layers.Mcp251xfd.Monad.{
  Env, Drv, Out, ok, err, stuck, M, pure, raise, ◌>>=◌, ◌>>◌, attempt, on_error, failing_with,
  return, get, modify, when, ask, call, call_, tell,
}
use yocto_layers.Crc16.{crc16_compute, crc16_compute2}
use yocto_layers.Mcp251xfd.State.{
  Errno, ebadmsg, einval, Quirks, Xfer, Priv, Reply, Call, spi_write, spi_sync_full, spi_sync_half,
  spi_sync_transfer,
}
use yocto_layers.Mcp251xfd.Regs
use yocto_layers.Mcp251xfd.Spi.{
  first_byte_set, byte_count, be16, le32, cmd_read_nocrc, cmd_write_nocrc, cmd_read_crc,
  cmd_write_crc,
}

-- Whether an update has to read the register first; an unknown one is read.
unfoldable pub update_bits_read_reg : ℕ → Bool
update_bits_read_reg reg =
    if reg == Regs.int
      || (reg == Regs.tefcon
          || (reg == Regs.fifocon (Regs.rx_fifo 0)
              || (reg == Regs.fltcon 0 || (reg == Regs.eccstat || reg == Regs.crc))))
    then false
    else true

-- A little-endian number from its bytes.
abbrev pub from_le : List ℕ → ℕ
from_le [] = 0
from_le (b ∷ bs) = b + 2 ^ 8 * from_le bs

-- `~mask` on 32 bits
abbrev pub not32 : ℕ → ℕ
not32 x = 2 ^ 32 - 1 - x

-- The bytes that an update writes, given the `len` bytes that stood there.
unfoldable pub merged : ℕ → ℕ → ℕ → List ℕ
unfolding first_byte_set byte_count
merged orig mask val =
    let shift = 2 ^ (8 * first_byte_set mask) in
    let mask' = u32 mask / shift in
    let val' = u32 val / shift in
    take (byte_count mask) (le32 (bit_or (bit_and orig (not32 mask')) (bit_and val' mask')))

-- get_unaligned_be16
abbrev pub be16_at : List ℕ → ℕ → ℕ
be16_at bytes i = get_or bytes i 0 * 2 ^ 8 + get_or bytes (i + 1) 0

-- What one checksummed read leaves: its error, and the contents of the receive buffer.
pub record ReadOne : Type 0 where
  pub err_one : Option Errno
  pub bytes : List ℕ

unfoldable pub is_ebadmsg : Errno → Bool
is_ebadmsg ebadmsg = true
is_ebadmsg _ = false

-- The outcome of the attempts: data to hand on, a failed transfer, or nothing but bad checksums.
pub data Attempts : Type 0 where
  got : List ℕ → Attempts
  failed : Errno → Attempts
  exhausted : Errno → Attempts

-- READ_CRC_RETRIES_MAX attempts in a row, and that again up to twice more.
abbrev pub read_crc_rounds : ℕ
read_crc_rounds = 3

module _ ⦃env : Env⦄ where
  -- The receive buffer after a transfer of `cmd`, which half duplex controllers split in two.
  unfoldable pub spi_exchange : List ℕ → ℕ → M Reply
  spi_exchange cmd rx_len = do
    p ← get
    ask (
        if p.devtype_data.quirks.half_duplex
        then spi_sync_half cmd rx_len
        else spi_sync_full (cmd ++ replicate rx_len 0))

  unfoldable pub regmap_nocrc_read : ℕ → ℕ → M (List ℕ)
  unfolding spi_exchange
  regmap_nocrc_read reg val_len = do
    r ← spi_exchange (cmd_read_nocrc reg) val_len
    return r.err
    pure (take val_len r.bytes)

  unfoldable pub regmap_nocrc_write : List ℕ → M (Unit {0})
  regmap_nocrc_write bytes = call_ (spi_write bytes)

  unfoldable pub regmap_nocrc_update_bits : ℕ → ℕ → ℕ → M (Unit {0})
  unfolding first_byte_set byte_count update_bits_read_reg merged spi_exchange
  regmap_nocrc_update_bits reg mask val =
      let len = byte_count mask in
      let addr = reg + first_byte_set mask in
      if env.sanity && mask == 0 then raise einval else (do
        orig ←
            (if update_bits_read_reg reg
              then (do
                r ← spi_exchange (cmd_read_nocrc addr) len
                return r.err
                pure (from_le (take len r.bytes)))
              else pure 0)
        call_ (spi_write (cmd_write_nocrc addr ++ merged orig mask val)))

  -- `reg` is the address that regmap passes in native order.
  unfoldable pub regmap_crc_gather_write : ℕ → List ℕ → M (Unit {0})
  regmap_crc_gather_write reg val =
      let image = cmd_write_crc reg (length val) ++ val in
      let frame = image ++ be16 (crc16_compute image) in
      call_ (spi_sync_transfer frame (record { len = length frame; cs_change = false } ∷ []))

  unfoldable pub regmap_crc_read_one : List ℕ → ℕ → M ReadOne
  unfolding spi_exchange
  regmap_crc_read_one cmd data_len = do
    r ← spi_exchange cmd (data_len + 2)
    let good = be16_at r.bytes data_len == crc16_compute2 cmd (take data_len r.bytes)
    pure (record {
      err_one = elim (r.err) [ some e ↦ some e | none ↦ if good then none else some ebadmsg ];
      bytes = take data_len r.bytes;
    })

  -- What the loop makes of an attempt: `rest` is its next round.
  unfoldable pub after_read : ℕ → M Attempts → ReadOne → M Attempts
  unfolding is_ebadmsg
  after_read reg rest one = elim (one.err_one) [
    | none ↦ pure (got one.bytes)
    | some e ↦
        if is_ebadmsg e
        then (if reg == Regs.osc then pure (got one.bytes) else rest)
        else pure (failed e)
  ]

  -- The inner `for` loop, with the attempts left.
  unfoldable pub read_attempts : ℕ → ℕ → ℕ → M Attempts
  unfolding regmap_crc_read_one after_read
  read_attempts zero reg val_len s = pure (exhausted ebadmsg) s
  read_attempts (suc left) reg val_len s =
      (do
        one ← regmap_crc_read_one (cmd_read_crc reg val_len) val_len
        after_read reg (read_attempts left reg val_len) one)
        s

  -- The jumps back to `crc_reread`, with the rounds left.
  unfoldable pub read_rounds : ℕ → ℕ → ℕ → M (List ℕ)
  unfolding read_attempts
  read_rounds zero reg val_len s = err ebadmsg s
  read_rounds (suc left) reg val_len s =
      elim (read_attempts Regs.read_crc_retries_max reg val_len s) [
        | ok a t ↦ elim a [
          | got bytes ↦ ok bytes t
          | failed e ↦ err e t
          | exhausted e ↦ read_rounds left reg val_len t
        ]
        | err e t ↦ err e t
        | stuck ↦ stuck
      ]

  unfoldable pub regmap_crc_read : ℕ → ℕ → M (List ℕ)
  unfolding read_rounds
  regmap_crc_read reg val_len = read_rounds read_crc_rounds reg val_len
