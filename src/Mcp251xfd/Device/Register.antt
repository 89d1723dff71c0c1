-- ===== src/Mcp251xfd/Device/Register.antt =====
-- mcp251xfd_register and mcp251xfd_unregister: bringing the chip up once, to see what it is, and
-- handing the interface to the CAN stack.
use yocto_layers.Common.{
  ℕ, Bool, true, false, ◌+◌, ◌*◌, ◌^◌, List, Option, none, some, get_or, if◌then◌else◌,
}
use yocto_layers.Mcp251xfd.Monad.{
  Env, M, pure, ◌>>=◌, ◌>>◌, attempt, on_error, on_error_by, failing_with, modify, ask, call, tell,
}
use yocto_layers.Mcp251xfd.State.{
  Errno, enodev, enomem, Reply, kzalloc, kfree, spi_sync_half, register_candev, unregister_candev,
  pm_runtime_get_sync, pm_runtime_put, pm_runtime_put_noidle, pm_runtime_get_noresume,
  pm_runtime_set_active, pm_runtime_enable, pm_runtime_disable,
}
use yocto_layers.Mcp251xfd.Regs
use yocto_layers.Mcp251xfd.Spi.{cmd_read_nocrc}
use yocto_layers.Mcp251xfd.Mode.{chip_set_mode}
use yocto_layers.Mcp251xfd.Reset.{chip_softreset}
use yocto_layers.Mcp251xfd.Maps.{regmap_init}
use yocto_layers.Mcp251xfd.Device.{
  register_quirks, register_chip_detect, register_check_rx_int, clks_and_vdd_enable,
  clks_and_vdd_disable,
}

unfoldable pub is_enodev : Errno → Bool
is_enodev enodev = true
is_enodev _ = false

-- be32_to_cpup
abbrev pub be32_at : List ℕ → ℕ
be32_at bytes =
    get_or bytes 0 0 * 2 ^ 24
    + get_or bytes 1 0 * 2 ^ 16
    + get_or bytes 2 0 * 2 ^ 8
    + get_or bytes 3 0

-- What mcp251xfd_register_get_dev_id stores through its two pointers.
pub record DevId : Type 0 where
  pub dev_id : ℕ
  pub effective_speed_hz : ℕ

-- A transfer that fails stores nothing.
abbrev pub stored : Reply → Option DevId
stored r = elim (r.err) [
  | some e ↦ none
  | none ↦ some (record { dev_id = be32_at r.bytes; effective_speed_hz = r.val })
]

-- sizeof(struct mcp251xfd_map_buf_nocrc): a command and the data.
abbrev pub map_buf_nocrc_size : ℕ
map_buf_nocrc_size = 2 + 256

module _ (sizeof_rx_ring sizeof_ptr : ℕ) ⦃env : Env⦄ where
  -- `none`: nothing is stored. Once the first buffer is there, every path returns 0. The length of the
  -- transfer is the size of the pointer `dev_id`.
  unfoldable pub register_get_dev_id : M (Option DevId)
  register_get_dev_id = do
    failing_with enomem (call (kzalloc map_buf_nocrc_size))
    second ← attempt (call (kzalloc map_buf_nocrc_size))
    id ← elim second [
      | some e ↦ pure none
      | none ↦ (do
        r ← ask (spi_sync_half (cmd_read_nocrc Regs.devid) sizeof_ptr)
        tell kfree
        pure (stored r))
    ]
    tell kfree
    pure id

  -- What is read is only printed.
  unfoldable pub register_done : M (Unit {0})
  unfolding register_get_dev_id
  register_done = do register_get_dev_id; pure tt

  -- The error path of mcp251xfd_register from each label on.
  unfoldable pub out_runtime_put_noidle : M (Unit {0})
  out_runtime_put_noidle = do
    tell pm_runtime_put_noidle
    attempt (clks_and_vdd_disable sizeof_rx_ring)
    pure tt

  unfoldable pub out_runtime_disable : M (Unit {0})
  unfolding out_runtime_put_noidle
  out_runtime_disable = do tell pm_runtime_disable; out_runtime_put_noidle

  unfoldable pub out_chip_set_mode_sleep : M (Unit {0})
  unfolding out_runtime_disable
  out_chip_set_mode_sleep = do attempt (chip_set_mode Regs.con_mode_sleep); out_runtime_disable

  unfoldable pub out_unregister_candev : M (Unit {0})
  unfolding out_chip_set_mode_sleep
  out_unregister_candev = do tell unregister_candev; out_chip_set_mode_sleep

  -- A missing chip is not put to sleep.
  unfoldable pub register_softreset : M (Unit {0})
  unfolding is_enodev out_chip_set_mode_sleep out_runtime_disable
  register_softreset =
      on_error_by chip_softreset
        (λ e. if is_enodev e then out_runtime_disable else out_chip_set_mode_sleep)

  -- `half_duplex` is SPI_CONTROLLER_HALF_DUPLEX of the SPI controller.
  unfoldable pub register : Bool → M (Unit {0})
  unfolding out_runtime_put_noidle out_chip_set_mode_sleep out_unregister_candev register_softreset
      register_done
  register half_duplex = do
    clks_and_vdd_enable sizeof_rx_ring
    tell pm_runtime_get_noresume
    on_error (call pm_runtime_set_active) out_runtime_put_noidle
    tell pm_runtime_enable
    modify (λ p. record p { devtype_data = register_quirks half_duplex p.devtype_data })
    register_softreset
    on_error (register_chip_detect sizeof_rx_ring half_duplex regmap_init) out_chip_set_mode_sleep
    on_error (register_check_rx_int sizeof_rx_ring) out_chip_set_mode_sleep
    on_error (call register_candev) out_chip_set_mode_sleep
    on_error register_done out_unregister_candev
    on_error (chip_set_mode Regs.con_mode_sleep) out_unregister_candev
    tell pm_runtime_put

  -- The error of clks_and_vdd_disable is dropped.
  unfoldable pub unregister : M (Unit {0})
  unregister = do
    tell unregister_candev
    tell pm_runtime_get_sync
    tell pm_runtime_put_noidle
    attempt (clks_and_vdd_disable sizeof_rx_ring)
    tell pm_runtime_disable

  -- mcp251xfd_runtime_suspend and mcp251xfd_runtime_resume
  unfoldable pub runtime_suspend : M (Unit {0})
  runtime_suspend = clks_and_vdd_disable sizeof_rx_ring

  unfoldable pub runtime_resume : M (Unit {0})
  runtime_resume = clks_and_vdd_enable sizeof_rx_ring
