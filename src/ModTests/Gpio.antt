-- ===== src/ModTests/Gpio.antt =====
-- The modules dv-int and dv-git of recipes-kernel/mod-tests, which are the same but for their names: the
-- interrupt of a GPIO pin of the device tree.

pub mod Balance
use yocto_layers.Common.{
  ℕ, zero, suc, ◌+◌, ◌%◌, ◌^◌, Bool, true, false, not, List, [], ◌∷◌, if◌then◌else◌,
}
use yocto_layers.ModTests.Kernel.{
  ℤ, pos, enxio, Env, Call, of_property_read_string, of_get_named_gpio, gpio_request, gpio_to_irq,
  gpio_free, request_threaded_irq, free_irq, platform_driver_register, platform_driver_unregister,
  Run, Out, ok, err, pure, raise, ◌>>=◌, ◌>>◌, on_error, get, modify, ask, tell, call, u16_of,
  is_positive,
}

-- struct dv_irq_T; the static dv_irq_d is one of these.
pub record DvIrq : Type 0 where
  pub irq_pin : ℤ
  pub irq_fired : ℕ
  pub irq : ℤ

-- IRQ_WAKE_THREAD and IRQ_HANDLED
pub data IrqReturn : Type 0 where
  irq_wake_thread irq_handled : IrqReturn

unfoldable pub test_irq_ih : Run DvIrq → Out DvIrq IrqReturn
test_irq_ih = do
  modify (λ d. record d { irq_fired = (d.irq_fired + 1) % 2 ^ 16 })
  pure irq_wake_thread

unfoldable pub test_irq_iht : Run DvIrq → Out DvIrq IrqReturn
test_irq_iht = pure irq_handled

-- The two handlers, `n` times.
unfoldable pub interrupts : ℕ → Run DvIrq → Out DvIrq (Unit {0})
unfolding test_irq_ih test_irq_iht
interrupts zero s = ok tt s
interrupts (suc n) s = (do test_irq_ih; test_irq_iht; interrupts n) s

module _ ⦃env : Env⦄ where
  -- From gpio_to_irq on.
  unfoldable pub hook : ℤ → Run DvIrq → Out DvIrq (Unit {0})
  hook pin = do
    i ← call (gpio_to_irq pin)
    modify (λ d. record d { irq = i })
    call (request_threaded_irq i)
    pure tt

  unfoldable pub probe : Run DvIrq → Out DvIrq (Unit {0})
  unfolding hook
  probe = if not env.of_node then raise enxio else (do
    ask of_property_read_string
    p ← ask of_get_named_gpio
    modify (λ d. record d { irq_pin = u16_of p })
    d ← get
    if not (env.gpio_is_valid d.irq_pin)
        then (do modify (λ d. record d { irq_pin = pos 0 }); raise enxio)
        else (do
          call (gpio_request d.irq_pin)
          on_error (hook d.irq_pin) (tell (gpio_free d.irq_pin))))

  unfoldable pub remove : Run DvIrq → Out DvIrq (Unit {0})
  remove = do
    d ← get
    if is_positive d.irq then tell (free_irq d.irq) else pure tt
    tell (gpio_free d.irq_pin)

  -- A device that the bus gives to the driver and takes away after `n` interrupts, if it was bound.
  unfoldable pub bound : ℕ → Run DvIrq → Out DvIrq (Unit {0})
  unfolding probe remove interrupts
  bound n s = elim (probe s) [ ok _ t ↦ (interrupts n >> remove) t | err e t ↦ ok tt t ]

  unfoldable pub each : List ℕ → Run DvIrq → Out DvIrq (Unit {0})
  unfolding bound
  each [] s = ok tt s
  each (n ∷ ns) s = (bound n >> each ns) s

  unfoldable pub dv_init : Run DvIrq → Out DvIrq (Unit {0})
  dv_init = do modify (λ d. record d { irq = pos 0 }); call platform_driver_register; pure tt

  unfoldable pub dv_exit : Run DvIrq → Out DvIrq (Unit {0})
  dv_exit = tell platform_driver_unregister

  -- The module is loaded, bound to one device after another, and unloaded.
  unfoldable pub loaded : List ℕ → Run DvIrq → Out DvIrq (Unit {0})
  unfolding dv_init each dv_exit
  loaded ns = do dv_init; each ns; dv_exit
