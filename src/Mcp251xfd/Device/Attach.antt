-- ===== src/Mcp251xfd/Device/Attach.antt =====
-- What is held after mcp251xfd_probe and mcp251xfd_remove.
use yocto_layers.Common.{
  ℕ, Bool, true, false, ◌≡◌, ◌⊎◌, inl, inr, refl, sym, ap, ap₂, ◌∙◌, not, u32, ◌==◌, none, length,
  [],
}
use yocto_layers.Mcp251xfd.Monad.{Env, Drv, on_error, failing_with, call, ◌>>◌}
use yocto_layers.Mcp251xfd.State.{
  Call, Priv, enxio, enomem, vdd_disable, alloc_candev, free_candev, spi_setup, can_rx_offload_add,
  can_rx_offload_del, devm_gpiod_get_optional, devm_get_vdd, devm_get_xceiver, devm_clk_get,
  clk_get_rate,
}
use yocto_layers.Mcp251xfd.Does.{
  Does, Keeps, pure-Does, raise-Does, if-Does, bind-Does, then-Does, attempt-bind-Does, weaken-Does,
  failing_with-Does, on_error-Does, tell-Does, modify-Does, settle-Does, called, ask-Does,
  call-Keeps,
}
use yocto_layers.Mcp251xfd.Maps.{regmap_init}
use yocto_layers.Mcp251xfd.Device.Held.{Held, Wiring, wiring, effect, held, Owns}
use yocto_layers.Mcp251xfd.Device.Power.{Reliable, powered, call-Owns, power-off}
use yocto_layers.Mcp251xfd.Device.Calm.Setup.{regmap_init-Calm}
use yocto_layers.Mcp251xfd.Device.Enlist.{enlisted, register-Balanced, unregister-Balanced}
use yocto_layers.Mcp251xfd.Device.Register.{is_enodev, register, runtime_suspend}
use yocto_layers.Mcp251xfd.Device.Probe.{
  Platform, Locals, Found, get_regulator, find_parts, probed, out_free_candev, probe, remove,
  restore_speed,
}

-- What an attached device holds, over `h`, besides its clock and power.
abbrev pub bound : Held → Held
bound h = enlisted (effect can_rx_offload_add none (effect alloc_candev none h))

del-powered :
    (v : Bool) (h : Held)
    → effect can_rx_offload_del none (powered v (bound h))
      ≡ powered v (enlisted (effect alloc_candev none h))
del-powered true h = refl
del-powered false h = refl

module _ ⦃env : Env⦄ where
  abbrev pub Holds : Held → Drv → Type 0
  Holds h s = held s.calls ≡ h

  -- The device is attached over `h` without an RX ring, and its SPI speed before was `speed`.
  abbrev pub Attached : Held → ℕ → Drv → Type 0
  Attached h speed s =
      (held s.calls ≡ powered s.priv.reg_vdd (bound h))
      × (s.priv.spi_max_speed_hz_orig ≡ speed)
      × (length s.priv.rx ≡ 0)

  -- The same for a device that the kernel has suspended.
  abbrev pub Suspended : Held → ℕ → Drv → Type 0
  Suspended h speed s =
      (held s.calls ≡ bound h) × (s.priv.spi_max_speed_hz_orig ≡ speed) × (length s.priv.rx ≡ 0)

  -- Nothing is left of an attempt over `h`, but perhaps the RX offload.
  abbrev pub Abandoned : Held → Drv → Type 0
  Abandoned h s = Holds h s ⊎ Holds (effect can_rx_offload_add none h) s

  -- `h` is held, and the SPI device runs at `speed`.
  abbrev pub Detached : Held → ℕ → Drv → Type 0
  Detached h speed s = (held s.calls ≡ h) × (s.priv.spi.max_speed_hz ≡ speed)

probed_speed :
    (d : Platform) (stack : Locals) (f : Found) (fresh : Priv)
    → (probed d stack f fresh).spi_max_speed_hz_orig ≡ d.spi.max_speed_hz
unfolding probed
probed_speed d stack f fresh = refl

probed_rings :
    (d : Platform) (stack : Locals) (f : Found) (fresh : Priv)
    → length (probed d stack f fresh).rx ≡ length fresh.rx
unfolding probed
probed_rings d stack f fresh = refl

module _ (h : Held) ⦃env : Env⦄ where
  regulator-Keeps :
      (c : Call)
      → ((s : Drv) → Holds h s → Holds h (called c s))
      → Keeps (Holds h) (get_regulator c)
  unfolding get_regulator
  regulator-Keeps c k =
      attempt-bind-Does _ (call-Keeps c k) (pure-Does true)
        (λ e. if-Does (is_enodev e) (pure-Does false) (raise-Does e))

  find_parts-Keeps : Keeps (Holds h) find_parts
  unfolding find_parts
  find_parts-Keeps = bind-Does (call-Keeps devm_gpiod_get_optional (λ s i. i)) λ gpio.
      bind-Does (regulator-Keeps devm_get_vdd (λ s i. i)) λ vdd.
        bind-Does (regulator-Keeps devm_get_xceiver (λ s i. i)) λ xceiver.
          bind-Does (call-Keeps devm_clk_get (λ s i. i)) λ clk.
            bind-Does (ask-Does clk_get_rate (λ s i. i)) λ rate. pure-Does (record {
              rx_int = not (gpio.val == 0);
              vdd = vdd;
              xceiver = xceiver;
              freq = u32 rate.val;
            })

  alloc-Holds :
      Does
        (Holds h)
        (Holds (effect alloc_candev none h))
        (Abandoned h)
        (failing_with enomem (call alloc_candev))
  alloc-Holds = failing_with-Does enomem (
      settle-Does alloc_candev (λ s i q. ap₂ (effect alloc_candev) q i)
        (λ s i e q. inl (ap₂ (effect alloc_candev) q i)))

  free_candev-Abandoned :
      (k : Held) (w : Wiring)
      → ((s : Drv) → Holds (effect free_candev none k) s → Abandoned h s)
      → Does (Owns k w) (Abandoned h) (Abandoned h) out_free_candev
  unfolding out_free_candev
  free_candev-Abandoned k w f =
      then-Does {J = Holds k} (modify-Does restore_speed (λ s i. i.0))
        (tell-Does free_candev (λ s i. f (called free_candev s) (ap (effect free_candev none) i)))

module _ (h : Held) (sizeof_rx_ring sizeof_ptr : ℕ) ⦃env : Env⦄ (r : Reliable vdd_disable) where
  set_up :
      (w : Wiring) (half_duplex : Bool)
      → Does
          (Owns (effect alloc_candev none h) w)
          (Owns (powered w.vdd (bound h)) w)
          (Abandoned h)
          (do
            on_error (call spi_setup) out_free_candev
            on_error regmap_init out_free_candev
            on_error (call can_rx_offload_add) out_free_candev
            on_error (register sizeof_rx_ring sizeof_ptr half_duplex) out_free_candev)
  set_up w hd =
      let gone = free_candev-Abandoned h (effect alloc_candev none h) w (λ s i. inl i) in
      then-Does (on_error-Does (call-Keeps spi_setup (λ s i. i)) gone) (
        then-Does (on_error-Does (regmap_init-Calm _ w) gone) (
          then-Does (on_error-Does (call-Owns can_rx_offload_add (λ _. refl)) gone) (
            on_error-Does (register-Balanced _ w sizeof_rx_ring sizeof_ptr r hd)
              (free_candev-Abandoned h _ w (λ s i. inr i)))))

  pub probe-Attached :
      (d : Platform) (stack : Locals) (fresh : Priv)
      → fresh.rx ≡ []
      → Does
          (Holds h)
          (Attached h d.spi.max_speed_hz)
          (Abandoned h)
          (probe sizeof_rx_ring sizeof_ptr d stack fresh)
  unfolding probe
  probe-Attached d stack fresh empty =
      if-Does (d.irq == 0) (weaken-Does (raise-Does enxio) (λ s i. inl i) (λ s i. i) (λ s i. i)) (
        bind-Does (weaken-Does (find_parts-Keeps h) (λ s i. i) (λ s i. i) (λ s i. inl i)) (λ f.
          let w = wiring (probed d stack f fresh) in
          bind-Does (alloc-Holds h) λ _.
            then-Does {J = Owns (effect alloc_candev none h) w}
              (modify-Does (λ p. probed d stack f fresh) (λ s i. (i, refl)))
              (weaken-Does (set_up w d.half_duplex) (λ s i. i)
                (λ s i. (
                  i.0 ∙ ap (λ k. powered k.vdd (bound h)) (sym i.1),
                  ap (λ k. k.max_speed_hz_orig) i.1 ∙ probed_speed d stack f fresh,
                  ap (λ k. k.rings) i.1 ∙ probed_rings d stack f fresh ∙ ap length empty,
                ))
                (λ s i. i))))

  suspend-Suspended :
      (speed : ℕ) {K : Drv → Type 0}
      → Does (Attached h speed) (Suspended h speed) K (runtime_suspend sizeof_rx_ring sizeof_ptr)
  unfolding runtime_suspend
  suspend-Suspended speed {K} = record {
    runs = λ s i.
        (weaken-Does {K' = K} (power-off {h = bound h} {w = wiring s.priv} sizeof_rx_ring {K = K} r)
            (λ t j. j)
            (λ t j. (j.0, ap (λ k. k.max_speed_hz_orig) j.1 ∙ i.1, ap (λ k. k.rings) j.1 ∙ i.2))
            (λ t k. k)).runs
          s (i.0, refl);
  }

  -- Where regulator_disable does not fail and the private data that alloc_candev hands out have no RX ring,
  -- mcp251xfd_probe comes to an end for every sequence of replies. On success the network device, the RX
  -- offload, the registration and runtime power management are held, and besides these the clock and the
  -- power if there is a regulator for it, as long as the kernel does not suspend the idle device, and
  -- neither once it has; the SPI speed of before is kept in the private data. On failure, whatever step
  -- fails, what was held before is held, and at most the RX offload besides.
  pub probe-Idle :
      (d : Platform) (stack : Locals) (fresh : Priv)
      → fresh.rx ≡ []
      → Does
          (Holds h)
          (Attached h d.spi.max_speed_hz)
          (Abandoned h)
          (probe sizeof_rx_ring sizeof_ptr d stack fresh)
        × Does (Holds h) (Suspended h d.spi.max_speed_hz) (Abandoned h) (
            probe sizeof_rx_ring sizeof_ptr d stack fresh
            >> runtime_suspend sizeof_rx_ring sizeof_ptr)
  probe-Idle d stack fresh empty = (
    probe-Attached d stack fresh empty,
    then-Does (probe-Attached d stack fresh empty) (suspend-Suspended d.spi.max_speed_hz),
  )

  -- Where regulator_disable does not fail, mcp251xfd_remove of an attached device comes to an end, does
  -- not fail, gives back all that mcp251xfd_probe has taken, and sets the SPI speed of before again.
  pub remove-Detached :
      (speed : ℕ) {K : Drv → Type 0}
      → Does (Attached h speed) (Detached h speed) K (remove sizeof_rx_ring sizeof_ptr)
  unfolding remove
  remove-Detached speed {K} = record {
    runs = λ s i.
        let w = wiring s.priv in
        (then-Does {J = Owns (powered w.vdd (enlisted (effect alloc_candev none h))) w} {K = K}
            (tell-Does {I = Owns (powered w.vdd (bound h)) w} can_rx_offload_del
              (λ t j. (ap (effect can_rx_offload_del none) j.0 ∙ del-powered w.vdd h, j.1)))
            (then-Does (unregister-Balanced _ w sizeof_rx_ring sizeof_ptr r) (
              then-Does {J = Detached (effect alloc_candev none h) speed}
                (modify-Does restore_speed (λ t j. (j.0, ap (λ k. k.max_speed_hz_orig) j.1 ∙ i.1)))
                (tell-Does free_candev (λ t j. (ap (effect free_candev none) j.0, j.1)))))).runs
          s (i.0, refl);
  }
