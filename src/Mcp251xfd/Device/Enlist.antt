-- ===== src/Mcp251xfd/Device/Enlist.antt =====
-- What is held after mcp251xfd_register and mcp251xfd_unregister.
use yocto_layers.Common.{ℕ, Bool, true, false, ◌≡◌, refl, ◌∙◌, none}
use yocto_layers.Mcp251xfd.Regs
use yocto_layers.Mcp251xfd.Monad.{Env, Drv, M, ◌>>◌}
use yocto_layers.Mcp251xfd.State.{
  kfree, kzalloc, enomem, spi_sync_half, vdd_disable, register_candev, unregister_candev,
  pm_runtime_get_sync, pm_runtime_put, pm_runtime_put_noidle, pm_runtime_get_noresume,
  pm_runtime_set_active, pm_runtime_enable, pm_runtime_disable,
}
use yocto_layers.Mcp251xfd.Does.{
  Does, Keeps, pure-Does, if-Does, bind-Does, then-Does, attempt-Does, attempt-bind-Does,
  weaken-Does, failing_with-Does, on_error-Does, on_error_by-Does, modify-Keeps, ask-Does,
  call-Keeps,
}
use yocto_layers.Mcp251xfd.Spi.{cmd_read_nocrc}
use yocto_layers.Mcp251xfd.Device.{register_quirks}
use yocto_layers.Mcp251xfd.Device.Held.{Held, Wiring, effect, Owns}
use yocto_layers.Mcp251xfd.Device.Power.{
  Reliable, powered, tell-Owns, call-Owns, power-on, power-off,
}
use yocto_layers.Mcp251xfd.Device.Calm.{set_mode-Calm, softreset-Calm}
use yocto_layers.Mcp251xfd.Device.Calm.Setup.{chip_detect-Calm, check_rx_int-Calm, regmap_init-Calm}
use yocto_layers.Mcp251xfd.Device.Register.{
  is_enodev, register_get_dev_id, register_done, out_runtime_put_noidle, out_runtime_disable,
  out_chip_set_mode_sleep, out_unregister_candev, register_softreset, register, unregister,
  runtime_suspend, map_buf_nocrc_size, stored,
}

-- What a registered device holds besides its clock and power.
abbrev pub enlisted : Held → Held
enlisted h = effect register_candev none (effect pm_runtime_enable none h)

powered-enlisted :
    (v : Bool) (h : Held)
    → effect register_candev none (effect pm_runtime_enable none (powered v h))
      ≡ powered v (enlisted h)
powered-enlisted true h = refl
powered-enlisted false h = refl

unregistered-powered :
    (v : Bool) (h : Held)
    → effect unregister_candev none (powered v (enlisted h))
      ≡ powered v (effect pm_runtime_enable none h)
unregistered-powered true h = refl
unregistered-powered false h = refl

module _ (h : Held) (w : Wiring) (sizeof_rx_ring sizeof_ptr : ℕ) ⦃env : Env⦄
    (r : Reliable vdd_disable) where
  abbrev Gives : Held → M (Unit {0}) → Type 0
  Gives k m = Does (Owns k w) (Owns h w) (Owns h w) m

  get_dev_id-Keeps : (k : Held) → Keeps (Owns k w) (register_done sizeof_rx_ring sizeof_ptr)
  unfolding register_done register_get_dev_id
  get_dev_id-Keeps k =
      let buf = kzalloc map_buf_nocrc_size in
      then-Does
        (bind-Does {J = Owns (effect buf none k) w}
          (failing_with-Does enomem (call-Owns buf (λ e. refl)))
          λ _.
            attempt-bind-Does {J = Owns (effect buf none (effect buf none k)) w}
              {K = Owns (effect buf none k) w} _ (call-Owns buf (λ e. refl))
              (bind-Does {J = Owns (effect buf none k) w}
                (bind-Does {J = Owns (effect buf none (effect buf none k)) w}
                  (ask-Does (spi_sync_half (cmd_read_nocrc Regs.devid) sizeof_ptr) (λ s i. i))
                  λ reply. then-Does (tell-Owns kfree (λ e. refl)) (pure-Does (stored reply)))
                λ id. then-Does (tell-Owns kfree (λ e. refl)) (pure-Does id))
              (λ e.
                bind-Does (pure-Does none)
                  λ id. then-Does (tell-Owns kfree (λ e. refl)) (pure-Does id)))
        (pure-Does tt)

  runtime_put_noidle-Gives :
      Gives
        (effect pm_runtime_get_noresume none (powered w.vdd h))
        (out_runtime_put_noidle sizeof_rx_ring sizeof_ptr)
  unfolding out_runtime_put_noidle
  runtime_put_noidle-Gives =
      then-Does {J = Owns (powered w.vdd h) w} (tell-Owns pm_runtime_put_noidle (λ _. refl))
        (then-Does (attempt-Does (power-off sizeof_rx_ring r)) (pure-Does tt))

  abbrev enabled : Held
  enabled = effect pm_runtime_enable none (effect pm_runtime_get_noresume none (powered w.vdd h))

  runtime_disable-Gives : Gives enabled (out_runtime_disable sizeof_rx_ring sizeof_ptr)
  unfolding out_runtime_disable
  runtime_disable-Gives =
      then-Does {J = Owns (effect pm_runtime_get_noresume none (powered w.vdd h)) w}
        (tell-Owns pm_runtime_disable (λ _. refl)) runtime_put_noidle-Gives

  mode_sleep-Gives : Gives enabled (out_chip_set_mode_sleep sizeof_rx_ring sizeof_ptr)
  unfolding out_chip_set_mode_sleep
  mode_sleep-Gives =
      then-Does (attempt-Does (set_mode-Calm _ w Regs.con_mode_sleep)) runtime_disable-Gives

  unregister-Gives :
      Gives (effect register_candev none enabled) (out_unregister_candev sizeof_rx_ring sizeof_ptr)
  unfolding out_unregister_candev
  unregister-Gives =
      then-Does {J = Owns enabled w} (tell-Owns unregister_candev (λ _. refl)) mode_sleep-Gives

  softreset-Gives :
      Does
        (Owns enabled w)
        (Owns enabled w)
        (Owns h w)
        (register_softreset sizeof_rx_ring sizeof_ptr)
  unfolding register_softreset
  softreset-Gives =
      on_error_by-Does (softreset-Calm _ w)
        (λ e. if-Does (is_enodev e) runtime_disable-Gives mode_sleep-Gives)

  -- On success the driver has switched the clock and the power on, has enabled runtime power management and
  -- registered the device, and counts no use of it.
  pub register-Balanced :
      (half_duplex : Bool)
      → Does
          (Owns h w)
          (Owns (powered w.vdd (enlisted h)) w)
          (Owns h w)
          (register sizeof_rx_ring sizeof_ptr half_duplex)
  unfolding register
  register-Balanced hd =
      weaken-Does
        (then-Does (power-on sizeof_rx_ring) (
          then-Does (tell-Owns pm_runtime_get_noresume (λ _. refl)) (
            then-Does
              (on_error-Does (call-Keeps pm_runtime_set_active (λ s i. i)) runtime_put_noidle-Gives)
              (then-Does (tell-Owns pm_runtime_enable (λ _. refl)) (
                then-Does
                  (modify-Keeps (λ p. record p { devtype_data = register_quirks hd p.devtype_data })
                    (λ s i. i))
                  (then-Does softreset-Gives (
                    then-Does
                      (on_error-Does
                        (chip_detect-Calm _ w sizeof_rx_ring hd _ (regmap_init-Calm _ w))
                        mode_sleep-Gives)
                      (then-Does
                        (on_error-Does (check_rx_int-Calm _ w sizeof_rx_ring) mode_sleep-Gives)
                        (then-Does
                          (on_error-Does (call-Owns register_candev (λ _. refl)) mode_sleep-Gives)
                          (then-Does (on_error-Does (get_dev_id-Keeps _) unregister-Gives) (
                            then-Does
                              (on_error-Does (set_mode-Calm _ w Regs.con_mode_sleep)
                                unregister-Gives)
                              (tell-Owns pm_runtime_put (λ _. refl)))))))))))))
        (λ s i. i) (λ s i. (i.0 ∙ powered-enlisted w.vdd h, i.1)) (λ s i. i)

  -- Where regulator_disable does not fail, mcp251xfd_register comes to an end for every sequence of replies.
  -- On success the registration and runtime power management are held, and no use of the device, and besides
  -- these the clock and the power if there is a regulator for it, as long as the kernel does not suspend the
  -- idle device; once it has, by mcp251xfd_runtime_suspend, neither is held. On failure, whatever step
  -- fails, the driver holds what it held before.
  pub register-Idle :
      (half_duplex : Bool)
      → Does
          (Owns h w)
          (Owns (powered w.vdd (enlisted h)) w)
          (Owns h w)
          (register sizeof_rx_ring sizeof_ptr half_duplex)
        × Does (Owns h w) (Owns (enlisted h) w) (Owns h w) (
            register sizeof_rx_ring sizeof_ptr half_duplex
            >> runtime_suspend sizeof_rx_ring sizeof_ptr)
  unfolding runtime_suspend
  register-Idle hd =
      (register-Balanced hd, then-Does (register-Balanced hd) (power-off sizeof_rx_ring r))

  -- Where regulator_disable does not fail, mcp251xfd_unregister comes to an end, does not fail, and
  -- gives back what mcp251xfd_register has taken.
  pub unregister-Balanced :
      {K : Drv → Type 0}
      → Does
          (Owns (powered w.vdd (enlisted h)) w)
          (Owns h w)
          K
          (unregister sizeof_rx_ring sizeof_ptr)
  unfolding unregister
  unregister-Balanced =
      then-Does {J = Owns (powered w.vdd (effect pm_runtime_enable none h)) w}
        (weaken-Does (tell-Owns unregister_candev (λ _. refl)) (λ s i. i)
          (λ s i. (i.0 ∙ unregistered-powered w.vdd h, i.1)) (λ s i. i))
        (then-Does (tell-Owns pm_runtime_get_sync (λ _. refl)) (
          then-Does {J = Owns (powered w.vdd (effect pm_runtime_enable none h)) w}
            (tell-Owns pm_runtime_put_noidle (λ _. refl))
            (then-Does (attempt-Does (power-off sizeof_rx_ring r))
              (tell-Owns pm_runtime_disable (λ _. refl)))))
