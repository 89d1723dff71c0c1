-- ===== src/Mcp251xfd/Device.antt =====
-- The life of the device: power, registration, opening and closing the interface.
pub mod Register
pub mod Held
pub mod Calm
pub mod Power
pub mod Session
pub mod Enlist
pub mod Probe
pub mod Attach
pub mod Lifetime
use yocto_layers.Common.{ℕ, Bool, true, false, not, none, some, ◌==◌, if◌then◌else◌}
use yocto_layers.Mcp251xfd.Monad.{
  Env, M, pure, ◌>>=◌, ◌>>◌, attempt, on_error, return, get, modify, when, ask, call, call_, tell,
}
use yocto_layers.Mcp251xfd.State.{
  mcp2517fd, mcp2518fd, DevtypeData, stopped, reg_read, reg_update_bits, netif_start_queue,
  netif_stop_queue, can_rx_offload_enable, can_rx_offload_disable, open_candev, close_candev,
  gpiod_get_value, gpiod_put, clk_prepare_enable, clk_disable_unprepare, vdd_enable, vdd_disable,
  xceiver_enable, xceiver_disable, pm_runtime_get_sync, pm_runtime_put, pm_runtime_put_noidle,
  request_threaded_irq, free_irq, usleep,
}
use yocto_layers.Mcp251xfd.Regs
use yocto_layers.Mcp251xfd.Regs.{any_bit}
use yocto_layers.Mcp251xfd.Setup.{ring_alloc, ring_free}
use yocto_layers.Mcp251xfd.Configure.{
  chip_rx_int_enable, chip_rx_int_disable, chip_interrupts_enable, chip_interrupts_disable,
}
use yocto_layers.Mcp251xfd.Chip.{chip_start, chip_stop}

-- mcp251xfd_devtype_data_mcp2517fd and _mcp2518fd
abbrev pub devtype_mcp2517fd : DevtypeData
devtype_mcp2517fd = record {
  model = mcp2517fd;
  quirks = record {
    mab_no_warn = true;
    crc_reg = true;
    crc_rx = true;
    crc_tx = true;
    ecc = true;
    half_duplex = false;
  };
}

abbrev pub devtype_mcp2518fd : DevtypeData
devtype_mcp2518fd = record {
  model = mcp2518fd;
  quirks = record {
    mab_no_warn = false;
    crc_reg = true;
    crc_rx = true;
    crc_tx = true;
    ecc = true;
    half_duplex = false;
  };
}

-- mcp251xfd_register_quirks: a half duplex controller sets the quirk, no other clears it.
unfoldable pub register_quirks : Bool → DevtypeData → DevtypeData
register_quirks half_duplex d =
    if half_duplex then record d { quirks = record (d.quirks) { half_duplex = true } } else d

module _ (sizeof_rx_ring : ℕ) ⦃env : Env⦄ where
  unfoldable pub power_vdd_enable : M (Unit {0})
  power_vdd_enable = do p ← get; when p.reg_vdd (call_ vdd_enable)

  unfoldable pub power_vdd_disable : M (Unit {0})
  power_vdd_disable = do p ← get; when p.reg_vdd (call_ vdd_disable)

  unfoldable pub transceiver_enable : M (Unit {0})
  transceiver_enable = do p ← get; when p.reg_xceiver (call_ xceiver_enable)

  unfoldable pub transceiver_disable : M (Unit {0})
  transceiver_disable = do p ← get; when p.reg_xceiver (call_ xceiver_disable)

  -- The wait is there on the error path too.
  unfoldable pub clks_and_vdd_enable : M (Unit {0})
  unfolding power_vdd_enable
  clks_and_vdd_enable = do
    call clk_prepare_enable
    powered ← attempt power_vdd_enable
    let undo : M (Unit {0}) = elim powered [ none ↦ pure tt | some e ↦ tell clk_disable_unprepare ]
    undo
    tell usleep
    return powered

  unfoldable pub clks_and_vdd_disable : M (Unit {0})
  unfolding power_vdd_disable
  clks_and_vdd_disable = do power_vdd_disable; tell clk_disable_unprepare

  -- `half_duplex` is SPI_CONTROLLER_HALF_DUPLEX, and `regmap_init` is mcp251xfd_regmap_init.
  unfoldable pub register_chip_detect : Bool → M (Unit {0}) → M (Unit {0})
  unfolding register_quirks
  register_chip_detect half_duplex regmap_init = do
    call (reg_update_bits Regs.osc Regs.osc_lpmen Regs.osc_lpmen)
    r ← call (reg_read Regs.osc)
    let found = if any_bit r.val Regs.osc_lpmen then devtype_mcp2518fd else devtype_mcp2517fd
    modify (λ p. record p { devtype_data = register_quirks half_duplex found })
    regmap_init

  unfoldable pub register_check_rx_int : M (Unit {0})
  register_check_rx_int = do
    p ← get
    when p.rx_int (do
      chip_rx_int_enable
      pending ← ask gpiod_get_value
      chip_rx_int_disable
      when (not (pending.val == 0)) (do tell gpiod_put; modify (λ q. record q { rx_int = false })))

  -- The error path of mcp251xfd_open from each label on.
  unfoldable pub out_runtime_put : M (Unit {0})
  out_runtime_put = do attempt (chip_stop stopped); tell pm_runtime_put

  unfoldable pub out_close_candev : M (Unit {0})
  unfolding out_runtime_put
  out_close_candev = do tell close_candev; out_runtime_put

  unfoldable pub out_ring_free : M (Unit {0})
  unfolding out_close_candev
  out_ring_free = do ring_free sizeof_rx_ring; out_close_candev

  unfoldable pub out_transceiver_disable : M (Unit {0})
  unfolding transceiver_disable out_ring_free
  out_transceiver_disable = do attempt transceiver_disable; out_ring_free

  unfoldable pub out_rx_offload_disable : M (Unit {0})
  unfolding out_transceiver_disable
  out_rx_offload_disable = do tell can_rx_offload_disable; out_transceiver_disable

  unfoldable pub out_free_irq : M (Unit {0})
  unfolding out_rx_offload_disable
  out_free_irq = do tell free_irq; out_rx_offload_disable

  unfoldable pub ndo_open : M (Unit {0})
  unfolding out_runtime_put out_close_candev out_ring_free out_transceiver_disable
      out_rx_offload_disable out_free_irq transceiver_enable
  ndo_open = do
    on_error (call pm_runtime_get_sync) (tell pm_runtime_put_noidle)
    on_error (call open_candev) out_runtime_put
    on_error (ring_alloc sizeof_rx_ring) out_close_candev
    on_error transceiver_enable out_ring_free
    on_error chip_start out_transceiver_disable
    tell can_rx_offload_enable
    on_error (call request_threaded_irq) out_rx_offload_disable
    on_error chip_interrupts_enable out_free_irq
    tell netif_start_queue

  -- mcp251xfd_stop always returns 0.
  unfoldable pub ndo_stop : M (Unit {0})
  unfolding transceiver_disable
  ndo_stop = do
    tell netif_stop_queue
    attempt chip_interrupts_disable
    tell free_irq
    tell can_rx_offload_disable
    attempt (chip_stop stopped)
    attempt transceiver_disable
    ring_free sizeof_rx_ring
    tell close_candev
    tell pm_runtime_put
