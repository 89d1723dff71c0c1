-- ===== src/Mcp251xfd/Chip.antt =====
-- Starting and stopping the chip, and the error counters: mcp251xfd_chip_start, mcp251xfd_chip_stop,
-- mcp251xfd_set_mode and mcp251xfd_get_berr_counter.
pub mod Start
pub mod Quiet
pub mod Restart
use yocto_layers.Common.{
  ℕ, zero, suc, ◌+◌, ◌-◌, ◌*◌, ◌/◌, ◌%◌, ◌^◌, ◌≤◌, ◌<◌, min, max, bit_and, bit_or, bit_xor, ◌≡◌,
  refl, sym, ap, ap₂, ◌∙◌, ◌≢◌, ◌↔◌, ◌⊎◌, inl, inr, Bool, true, false, not, ◌&&◌, ◌||◌, Option,
  none, some, List, [], ◌∷◌, ◌++◌, map, length, get_elem?, get_or, set, take, drop, replicate, ltb,
  leb, ◌==◌, if◌then◌else◌, Bool-cases, u8, u16, u32, sub32, arith,
}
use yocto_layers.Mcp251xfd.Monad.{
  Env, Drv, Out, ok, err, M, pure, raise, ◌>>=◌, ◌>>◌, attempt, on_error, failing_with, return, get,
  modify, when, ask, call, call_, tell,
}
use yocto_layers.Mcp251xfd.State.{
  CanState, error_active, bus_off, stopped, BerrCounter, Priv, eopnotsupp, reg_read,
  netif_wake_queue,
}
use yocto_layers.Mcp251xfd.Regs
use yocto_layers.Mcp251xfd.Regs.{field_get, any_bit}
use yocto_layers.Mcp251xfd.Setup.{ring_init}
use yocto_layers.Mcp251xfd.Mode.{chip_set_mode, chip_set_normal_mode}
use yocto_layers.Mcp251xfd.Reset.{chip_softreset, chip_clock_init}
use yocto_layers.Mcp251xfd.Configure.{
  set_bittiming, chip_rx_int_enable, chip_rx_int_disable, chip_fifo_init, chip_ecc_init,
  chip_interrupts_enable, chip_interrupts_disable,
}

-- enum can_mode, as far as the driver tells its values apart
pub data CanMode : Type 0 where
  start other_mode : CanMode

unfoldable pub is_bus_off : CanState → Bool
is_bus_off bus_off = true
is_bus_off _ = false

-- The counters in the TREC register; a transmitter in bus off counts as 256.
unfoldable pub berr_counter : ℕ → BerrCounter
berr_counter trec = record {
  txerr = if any_bit trec Regs.trec_txbo then 256 else field_get Regs.trec_tec_mask trec;
  rxerr = field_get Regs.trec_rec_mask trec;
}

module _ ⦃env : Env⦄ where
  -- The errors of the first two steps are dropped.
  unfoldable pub chip_stop : CanState → M (Unit {0})
  chip_stop state = do
    modify (λ p. record p { can_state = state })
    attempt chip_interrupts_disable
    attempt chip_rx_int_disable
    chip_set_mode Regs.con_mode_sleep

  -- An error of mcp251xfd_chip_rx_int_enable returns at once, every other one by `out_chip_stop`.
  unfoldable pub chip_start : M (Unit {0})
  unfolding chip_stop
  chip_start = do
    on_error (do chip_softreset; chip_clock_init; set_bittiming) (chip_stop stopped)
    chip_rx_int_enable
    on_error
        (do
          chip_ecc_init
          modify ring_init
          chip_fifo_init
          modify (λ p. record p { can_state = error_active })
          chip_set_normal_mode)
        (chip_stop stopped)

  unfoldable pub set_mode : CanMode → M (Unit {0})
  unfolding chip_start chip_stop
  set_mode start = do
    chip_start
    on_error chip_interrupts_enable (chip_stop stopped)
    tell netif_wake_queue
  set_mode other_mode = raise eopnotsupp

  -- __mcp251xfd_get_berr_counter. `none`: the call succeeds and leaves the caller's structure as it
  -- was.
  unfoldable pub read_berr_counter : M (Option BerrCounter)
  unfolding berr_counter
  read_berr_counter = do
    p ← get
    if p.dv_nober
        then pure none
        else (do r ← call (reg_read Regs.trec); pure (some (berr_counter r.val)))

  unfoldable pub get_berr_counter : M (Option BerrCounter)
  unfolding read_berr_counter is_bus_off
  get_berr_counter = do
    p ← get
    if p.if_up
        then (if is_bus_off p.can_state then pure (some p.bec) else read_berr_counter)
        else pure none
