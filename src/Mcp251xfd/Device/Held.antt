-- ===== src/Mcp251xfd/Device/Held.antt =====
-- What the driver holds of the rest of the kernel, told from the calls it has made: a specification
-- of the life cycle that knows nothing of the order in which the driver works.
use yocto_layers.Common.{ℕ, zero, suc, Bool, length, ◌≡◌, Option, none, List, [], ◌∷◌}
use yocto_layers.Mcp251xfd.Monad.{Env, Drv}
use yocto_layers.Mcp251xfd.State.{
  Errno, Call, Priv, SpiDevice, open_candev, close_candev, register_candev, unregister_candev,
  can_rx_offload_enable, can_rx_offload_disable, clk_prepare_enable, clk_disable_unprepare,
  vdd_enable, vdd_disable, xceiver_enable, xceiver_disable, pm_runtime_get_sync, pm_runtime_put,
  pm_runtime_put_noidle, pm_runtime_get_noresume, pm_runtime_enable, pm_runtime_disable, kzalloc,
  kfree, request_threaded_irq, free_irq, alloc_candev, free_candev, can_rx_offload_add,
  can_rx_offload_del,
}

-- How often each resource has been taken and not given back.
pub record Held : Type 0 where
  pub clocks : ℕ
  pub vdd : ℕ
  pub xceiver : ℕ
  -- uses of the device that keep runtime power management from suspending it
  pub usage : ℕ
  pub runtime_pm : ℕ
  pub allocated : ℕ
  pub registered : ℕ
  pub opened : ℕ
  pub offload : ℕ
  pub polling : ℕ
  pub irq : ℕ
  -- allocations that kfree has to end
  pub memory : ℕ

abbrev pub pred : ℕ → ℕ
pred zero = zero
pred (suc n) = n

-- A call that fails takes and gives back nothing; only pm_runtime_get_sync counts a use all the same.
abbrev pub effect : Call → Option Errno → Held → Held
effect clk_prepare_enable none h = record h { clocks = suc h.clocks }
effect clk_disable_unprepare _ h = record h { clocks = pred h.clocks }
effect vdd_enable none h = record h { vdd = suc h.vdd }
effect vdd_disable none h = record h { vdd = pred h.vdd }
effect xceiver_enable none h = record h { xceiver = suc h.xceiver }
effect xceiver_disable none h = record h { xceiver = pred h.xceiver }
effect pm_runtime_get_sync _ h = record h { usage = suc h.usage }
effect pm_runtime_get_noresume _ h = record h { usage = suc h.usage }
effect pm_runtime_put _ h = record h { usage = pred h.usage }
effect pm_runtime_put_noidle _ h = record h { usage = pred h.usage }
effect pm_runtime_enable _ h = record h { runtime_pm = suc h.runtime_pm }
effect pm_runtime_disable _ h = record h { runtime_pm = pred h.runtime_pm }
effect alloc_candev none h = record h { allocated = suc h.allocated }
effect free_candev _ h = record h { allocated = pred h.allocated }
effect register_candev none h = record h { registered = suc h.registered }
effect unregister_candev _ h = record h { registered = pred h.registered }
effect open_candev none h = record h { opened = suc h.opened }
effect close_candev _ h = record h { opened = pred h.opened }
effect can_rx_offload_add none h = record h { offload = suc h.offload }
effect can_rx_offload_del _ h = record h { offload = pred h.offload }
effect can_rx_offload_enable _ h = record h { polling = suc h.polling }
effect can_rx_offload_disable _ h = record h { polling = pred h.polling }
effect request_threaded_irq none h = record h { irq = suc h.irq }
effect free_irq _ h = record h { irq = pred h.irq }
effect (kzalloc size) none h = record h { memory = suc h.memory }
effect kfree _ h = record h { memory = pred h.memory }
effect _ _ h = h

-- What mcp251xfd_probe settles for the life of the device: the regulators that are there, the SPI
-- device and its speed before. Beside these, the number of RX rings.
pub record Wiring : Type 0 where
  pub vdd : Bool
  pub xceiver : Bool
  pub spi : SpiDevice
  pub max_speed_hz_orig : ℕ
  -- the RX rings that priv->rx points to
  pub rings : ℕ

abbrev pub wiring : Priv → Wiring
wiring p = record {
  vdd = p.reg_vdd;
  xceiver = p.reg_xceiver;
  spi = p.spi;
  max_speed_hz_orig = p.spi_max_speed_hz_orig;
  rings = length p.rx;
}

-- At the start nothing is held.
abbrev pub nothing : Held
nothing = record {
  clocks = 0;
  vdd = 0;
  xceiver = 0;
  usage = 0;
  runtime_pm = 0;
  allocated = 0;
  registered = 0;
  opened = 0;
  offload = 0;
  polling = 0;
  irq = 0;
  memory = 0;
}

module _ ⦃env : Env⦄ where
  abbrev pub held : List Call → Held
  held [] = nothing
  held (c ∷ cs) = effect c (env.answer (c ∷ cs)).err (held cs)

  -- `h` is held, and the device is wired as `w`.
  abbrev pub Owns : Held → Wiring → Drv → Type 0
  Owns h w s = (held s.calls ≡ h) × (wiring s.priv ≡ w)
