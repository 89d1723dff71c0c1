-- ===== src/Mcp251xfd/Device/Probe.antt =====
-- mcp251xfd_probe and mcp251xfd_remove. The checks of the oscillator's frequency are commented out in
-- the source.
use yocto_layers.Common.{
  ℕ, Bool, true, false, not, ◌*◌, ◌/◌, min, ◌==◌, u32, Option, none, some, if◌then◌else◌,
}
use yocto_layers.Mcp251xfd.Monad.{
  Env, M, pure, raise, ◌>>=◌, ◌>>◌, attempt, on_error, failing_with, modify, ask, call, tell,
}
use yocto_layers.Mcp251xfd.State.{
  enomem, enxio, Call, Priv, DevtypeData, SpiDevice, devm_gpiod_get_optional, devm_get_vdd,
  devm_get_xceiver, devm_clk_get, clk_get_rate, alloc_candev, free_candev, spi_setup,
  can_rx_offload_add, can_rx_offload_del,
}
use yocto_layers.Mcp251xfd.Maps.{regmap_init}
use yocto_layers.Mcp251xfd.Device.Register.{is_enodev, register, unregister}

-- What the bus and the device tree say of the device. `iocon` and `oscva` are the properties dv_iocon
-- and dv_oscva where they are given, `match` the data of device_get_match_data, and `driver_data`
-- those of spi_get_device_id.
pub record Platform : Type 0 where
  pub irq : ℕ
  pub spi : SpiDevice
  pub half_duplex : Bool
  pub iocon : Option ℕ
  pub oscva : Option ℕ
  pub nober : Bool
  pub noslp : Bool
  pub match : Option DevtypeData
  pub driver_data : DevtypeData

-- The variables `dviocon` and `dvoscva` before of_property_read_u32 writes to them, if it does.
pub record Locals : Type 0 where
  pub dviocon : ℕ
  pub dvoscva : ℕ

abbrev pub or_else {ℓ} : {A : Type ℓ} → Option A → A → A
or_else none a = a
or_else (some b) a = b

-- What the driver asks the kernel for.
pub record Found : Type 0 where
  pub rx_int : Bool
  pub vdd : Bool
  pub xceiver : Bool
  pub freq : ℕ

-- The SPI clock is at most 85 % of half the system clock.
unfoldable pub spi_speed : ℕ → ℕ → ℕ
spi_speed max_speed_hz freq = min max_speed_hz (freq / 2 / 1000 * 850)

-- The private data, which alloc_candev hands out as `fresh`.
unfoldable pub probed : Platform → Locals → Found → Priv → Priv
unfolding spi_speed
probed d stack f fresh = record fresh {
  dv_iocon = or_else d.iocon stack.dviocon;
  dv_oscva = or_else d.oscva stack.dvoscva;
  dv_nober = d.nober;
  dv_noslp = d.noslp;
  clock_freq = f.freq;
  rx_int = f.rx_int;
  reg_vdd = f.vdd;
  reg_xceiver = f.xceiver;
  devtype_data = or_else d.match d.driver_data;
  spi_max_speed_hz_orig = d.spi.max_speed_hz;
  spi = record { max_speed_hz = spi_speed d.spi.max_speed_hz f.freq; bits_per_word = 8; rt = true };
}

-- `spi->max_speed_hz = priv->spi_max_speed_hz_orig;`
abbrev pub restore_speed : Priv → Priv
restore_speed p = record p { spi = record (p.spi) { max_speed_hz = p.spi_max_speed_hz_orig } }

module _ ⦃env : Env⦄ where
  -- devm_regulator_get_optional: a regulator that is missing is no error.
  unfoldable pub get_regulator : Call → M Bool
  unfolding is_enodev
  get_regulator which = do
    e ← attempt (call which)
    elim e [ none ↦ pure true | some c ↦ if is_enodev c then pure false else raise c ]

  unfoldable pub find_parts : M Found
  unfolding get_regulator
  find_parts = do
    gpio ← call devm_gpiod_get_optional
    vdd ← get_regulator devm_get_vdd
    xceiver ← get_regulator devm_get_xceiver
    call devm_clk_get
    rate ← ask clk_get_rate
    pure
        (record { rx_int = not (gpio.val == 0); vdd = vdd; xceiver = xceiver; freq = u32 rate.val })

  unfoldable pub out_free_candev : M (Unit {0})
  out_free_candev = do modify restore_speed; tell free_candev

module _ (sizeof_rx_ring sizeof_ptr : ℕ) ⦃env : Env⦄ where
  unfoldable pub probe : Platform → Locals → Priv → M (Unit {0})
  unfolding find_parts probed out_free_candev
  probe d stack fresh = if d.irq == 0 then raise enxio else (do
    f ← find_parts
    failing_with enomem (call alloc_candev)
    modify (λ p. probed d stack f fresh)
    on_error (call spi_setup) out_free_candev
    on_error regmap_init out_free_candev
    on_error (call can_rx_offload_add) out_free_candev
    on_error (register sizeof_rx_ring sizeof_ptr d.half_duplex) out_free_candev)

  unfoldable pub remove : M (Unit {0})
  remove = do
    tell can_rx_offload_del
    unregister sizeof_rx_ring sizeof_ptr
    modify restore_speed
    tell free_candev
