-- ===== src/Mcp251xfd/Chip/Start.antt =====
-- mcp251xfd_chip_stop on a device whose chip must not sleep.
use yocto_layers.Common.{◌≡◌, refl, true}
use yocto_layers.Mcp251xfd.Monad.{Env, Drv, attempt}
use yocto_layers.Mcp251xfd.State.{Errno, CanState}
use yocto_layers.Mcp251xfd.Post.{Ends, returns, then-Ends, called-Ends, when-Ends, attempt-Ends}
use yocto_layers.Mcp251xfd.Mode.{chip_set_mode, chip_set_mode_wait}
use yocto_layers.Mcp251xfd.Configure.{chip_rx_int_disable, chip_interrupts_disable}
use yocto_layers.Mcp251xfd.Chip.{chip_stop}

abbrev pub NoError : Errno → Drv → Type 0
NoError e t = ⊥

-- The device must not sleep and stands in this state.
abbrev Awake : CanState → Drv → Type 0
Awake state t = (t.priv.dv_noslp ≡ true) × (t.priv.can_state ≡ state)

module _ (state : CanState) ⦃env : Env⦄ where
  interrupts_disable-Awake :
      (s : Drv)
      → Awake state s
      → Ends (λ _ t. Awake state t) (λ _ t. Awake state t) (chip_interrupts_disable s)
  unfolding chip_interrupts_disable
  interrupts_disable-Awake s h =
      called-Ends _ _ s
        (λ _. called-Ends _ _ _ (λ _. called-Ends _ _ _ (λ _. returns h) (λ _ _. h)) (λ _ _. h))
        (λ _ _. h)

  rx_int_disable-Awake :
      (s : Drv)
      → Awake state s
      → Ends (λ _ t. Awake state t) (λ _ t. Awake state t) (chip_rx_int_disable s)
  unfolding chip_rx_int_disable
  rx_int_disable-Awake s h =
      when-Ends s.priv.rx_int _ s (λ _. called-Ends _ _ s (λ _. returns h) (λ _ _. h)) (λ _. h)

  -- Where the device tree forbids sleep, stopping the chip succeeds, whatever the chip answers, and
  -- leaves the state that was asked for.
  pub chip_stop-noslp :
      (s : Drv)
      → s.priv.dv_noslp ≡ true
      → Ends (λ _ t. t.priv.can_state ≡ state) NoError (chip_stop state s)
  unfolding chip_stop chip_set_mode chip_set_mode_wait
  chip_stop-noslp s awake =
      let s0 : Drv = record s { priv = record (s.priv) { can_state = state } } in
      then-Ends (attempt chip_interrupts_disable) _ s0
        (attempt-Ends {I = Awake state} {Q' = NoError} chip_interrupts_disable s0
          (interrupts_disable-Awake s0 (awake, refl)))
        (λ _ t h.
          then-Ends (attempt chip_rx_int_disable) _ t
            (attempt-Ends {I = Awake state} {Q' = NoError} chip_rx_int_disable t
              (rx_int_disable-Awake t h))
            (λ _ u g. rw g.0 (returns g.1)))
