-- ===== src/Mcp251xfd/Configure.antt =====
-- The register writes that configure the chip: bit timing, pins, FIFOs, filters, ECC, interrupts.
pub mod Timing
use yocto_layers.Common.{
  ℕ, ◌+◌, ◌-◌, ◌*◌, ◌/◌, ◌^◌, min, bit_or, List, [], ◌∷◌, ltb, leb, ◌==◌, if◌then◌else◌, u32, sub32,
}
use yocto_layers.Mcp251xfd.Monad.{
  Env, M, pure, ◌>>=◌, ◌>>◌, attempt, failing_with, return, get, modify, when, call, call_, tell,
}
use yocto_layers.Mcp251xfd.State.{
  CtrlMode, Bittiming, RxRing, enomem, reg_read, reg_write, reg_update_bits, ram_fill, kzalloc,
  kfree,
}
use yocto_layers.Mcp251xfd.Regs
use yocto_layers.Mcp251xfd.Regs.{field_prep, genmask}
use yocto_layers.Mcp251xfd.Setup.{fd_sized}
use yocto_layers.Mcp251xfd.Reset.{dv_unset}

-- The control register while the chip is configured.
unfoldable pub con_config : CtrlMode → ℕ
con_config mode =
    let val = bit_or (field_prep Regs.con_reqop_mask Regs.con_mode_config) (
      bit_or Regs.con_stef (
        bit_or Regs.con_esigm (
          bit_or Regs.con_rtxat (
            bit_or (field_prep Regs.con_wft_mask Regs.con_wft_t11filter)
              (bit_or Regs.con_wakfil Regs.con_pxedis))))) in
    if mode.fd_non_iso then val else bit_or val Regs.con_isocrcen

unfoldable pub nbtcfg_val : Bittiming → ℕ
nbtcfg_val bt = bit_or (field_prep Regs.nbtcfg_brp_mask (sub32 bt.brp 1)) (
    bit_or (field_prep Regs.nbtcfg_tseg1_mask (sub32 (u32 (bt.prop_seg + bt.phase_seg1)) 1)) (
      bit_or (field_prep Regs.nbtcfg_tseg2_mask (sub32 bt.phase_seg2 1))
        (field_prep Regs.nbtcfg_sjw_mask (sub32 bt.sjw 1))))

unfoldable pub dbtcfg_val : Bittiming → ℕ
dbtcfg_val dbt = bit_or (field_prep Regs.dbtcfg_brp_mask (sub32 dbt.brp 1)) (
    bit_or (field_prep Regs.dbtcfg_tseg1_mask (sub32 (u32 (dbt.prop_seg + dbt.phase_seg1)) 1)) (
      bit_or (field_prep Regs.dbtcfg_tseg2_mask (sub32 dbt.phase_seg2 1))
        (field_prep Regs.dbtcfg_sjw_mask (sub32 dbt.sjw 1))))

-- clamp_t(int, x, -64, 63) in two's complement on 32 bits
unfoldable pub clamp_tdco : ℕ → ℕ
clamp_tdco x = if ltb x (2 ^ 31) then min x 63 else (if leb (2 ^ 32 - 64) x then x else 2 ^ 32 - 64)

unfoldable pub tdc_val : Bittiming → ℕ
unfolding clamp_tdco
tdc_val dbt = bit_or (field_prep Regs.tdc_tdcmod_mask Regs.tdc_tdcmod_auto) (
    field_prep Regs.tdc_tdco_mask
      (clamp_tdco (u32 (dbt.brp * u32 (dbt.prop_seg + dbt.phase_seg1)))))

-- FIFOCON's payload size: 64 bytes or 8.
unfoldable pub fifocon_plsize : CtrlMode → ℕ
fifocon_plsize mode =
    field_prep Regs.fifocon_plsize_mask
      (if fd_sized mode then Regs.fifocon_plsize_64 else Regs.fifocon_plsize_8)

unfoldable pub rx_fifocon_val : CtrlMode → RxRing → ℕ
unfolding fifocon_plsize
rx_fifocon_val mode ring =
    bit_or
      (bit_or (field_prep Regs.fifocon_fsize_mask (sub32 ring.obj_num 1))
        (bit_or Regs.fifocon_rxtsen (bit_or Regs.fifocon_rxovie Regs.fifocon_tfnrfnie)))
      (fifocon_plsize mode)

unfoldable pub tefcon_val : ℕ → ℕ
tefcon_val obj_num =
    bit_or (field_prep Regs.tefcon_fsize_mask (sub32 obj_num 1))
      (bit_or Regs.tefcon_teftsen (bit_or Regs.tefcon_tefovie Regs.tefcon_tefneie))

unfoldable pub tx_fifocon_val : CtrlMode → ℕ → ℕ
unfolding fifocon_plsize
tx_fifocon_val mode obj_num =
    bit_or
      (bit_or
        (bit_or (field_prep Regs.fifocon_fsize_mask (sub32 obj_num 1))
          (bit_or Regs.fifocon_txen Regs.fifocon_txatie))
        (fifocon_plsize mode))
      (field_prep Regs.fifocon_txat_mask
        (if mode.one_shot then Regs.fifocon_txat_one_shot else Regs.fifocon_txat_unlimited))

module _ ⦃env : Env⦄ where
  unfoldable pub set_bittiming : M (Unit {0})
  unfolding con_config nbtcfg_val dbtcfg_val tdc_val
  set_bittiming = do
    p ← get
    call (reg_write Regs.con (con_config p.ctrlmode))
    call (reg_write Regs.nbtcfg (nbtcfg_val p.bittiming))
    when p.ctrlmode.fd (do
      call (reg_write Regs.dbtcfg (dbtcfg_val p.data_bittiming))
      call_ (reg_write Regs.tdc (tdc_val p.data_bittiming)))

  -- The read of IOCON only feeds a message.
  unfoldable pub chip_rx_int_enable : M (Unit {0})
  chip_rx_int_enable = do
    p ← get
    when p.rx_int (do
      tell (reg_read Regs.iocon)
      let default = bit_or Regs.iocon_pm0 (bit_or Regs.iocon_tris1 Regs.iocon_tris0)
      call_ (reg_write Regs.iocon (if p.dv_iocon == dv_unset then default else p.dv_iocon)))

  unfoldable pub chip_rx_int_disable : M (Unit {0})
  chip_rx_int_disable = do
    p ← get
    when p.rx_int (
        call_ (
          reg_write Regs.iocon (
            bit_or Regs.iocon_pm1
              (bit_or Regs.iocon_pm0 (bit_or Regs.iocon_tris1 Regs.iocon_tris0)))))

  unfoldable pub chip_rx_fifo_init_one : RxRing → M (Unit {0})
  unfolding rx_fifocon_val
  chip_rx_fifo_init_one ring = do
    p ← get
    call_ (reg_write (Regs.fifocon ring.fifo_nr) (rx_fifocon_val p.ctrlmode ring))

  unfoldable pub chip_rx_filter_init_one : RxRing → M (Unit {0})
  chip_rx_filter_init_one ring = call_ (
      reg_update_bits (Regs.fltcon (ring.nr / 2 ^ 2)) (Regs.fltcon_flt_mask ring.nr)
        (bit_or (Regs.fltcon_flten ring.nr) (Regs.fltcon_fbp ring.nr ring.fifo_nr)))

  unfoldable pub chip_rx_fifos_init : List RxRing → M (Unit {0})
  unfolding chip_rx_fifo_init_one chip_rx_filter_init_one
  chip_rx_fifos_init [] s = pure tt s
  chip_rx_fifos_init (ring ∷ rings) s =
      (chip_rx_fifo_init_one ring >> chip_rx_filter_init_one ring >> chip_rx_fifos_init rings) s

  unfoldable pub chip_fifo_init : M (Unit {0})
  unfolding tefcon_val tx_fifocon_val chip_rx_fifos_init
  chip_fifo_init = do
    p ← get
    call (reg_write Regs.tefcon (tefcon_val p.tx.obj_num))
    call (reg_write (Regs.fifocon Regs.tx_fifo) (tx_fifocon_val p.ctrlmode p.tx.obj_num))
    chip_rx_fifos_init p.rx

  -- ECC covers the whole RAM, so all of it is written once.
  unfoldable pub chip_ecc_init : M (Unit {0})
  chip_ecc_init = do
    modify (λ p. record p { ecc = record (p.ecc) { ecc_stat = 0 } })
    p ← get
    call (
        reg_update_bits Regs.ecccon Regs.ecccon_eccen
          (if p.devtype_data.quirks.ecc then Regs.ecccon_eccen else 0))
    failing_with enomem (call (kzalloc Regs.ram_size))
    written ← attempt (call (ram_fill Regs.ram_start Regs.ram_size))
    tell kfree
    return written

  unfoldable pub chip_interrupts_enable : M (Unit {0})
  chip_interrupts_enable = do
    p ← get
    call (reg_write Regs.crc (bit_or Regs.crc_ferrie Regs.crc_crcerrie))
    let ecc = bit_or Regs.ecccon_dedie Regs.ecccon_secie
    call (reg_update_bits Regs.ecccon ecc ecc)
    let val = bit_or Regs.int_cerrie (
        bit_or Regs.int_serrie (
          bit_or Regs.int_rxovie (
            bit_or Regs.int_txatie (
              bit_or Regs.int_spicrcie (
                bit_or Regs.int_eccie
                  (bit_or Regs.int_tefie (bit_or Regs.int_modie Regs.int_rxie)))))))
    call_
        (reg_write Regs.int (if p.ctrlmode.berr_reporting then bit_or val Regs.int_ivmie else val))

  unfoldable pub chip_interrupts_disable : M (Unit {0})
  chip_interrupts_disable = do
    call (reg_write Regs.int 0)
    call (reg_update_bits Regs.ecccon (bit_or Regs.ecccon_dedie Regs.ecccon_secie) 0x0)
    call_ (reg_write Regs.crc 0)
