-- ===== src/ModTests/Premux.antt =====
-- The module dv-irq-tst of recipes-kernel/mod-tests: the interrupt of a GPIO pin of the device tree, or
-- where there is no such pin, the device's own interrupt. Its struct and handlers are those of dv-int,
-- but that irq_pin is an s16.
pub mod Leftovers
use yocto_layers.Common.{ℕ, Bool, true, false, not, ◌==◌, if◌then◌else◌}
use yocto_layers.ModTests.Kernel.{
  ℤ, pos, negsuc, enxio, Env, of_get_named_gpio, platform_get_irq, gpio_request,
  gpio_direction_input, gpio_to_irq, gpio_free, request_threaded_irq, free_irq, Run, Out, ok, err,
  pure, raise, ◌>>=◌, ◌>>◌, on_error, get, modify, ask, tell, call, s16_of, is_positive,
}
use yocto_layers.ModTests.Gpio.{DvIrq, interrupts}

unfoldable pub is_zero : ℤ → Bool
is_zero (pos n) = n == 0
is_zero (negsuc n) = false

module _ ⦃env : Env⦄ where
  unfoldable pub pin_irq : ℤ → Run DvIrq → Out DvIrq (Unit {0})
  pin_irq p = do
    call (gpio_request p)
    call (gpio_direction_input p)
    i ← call (gpio_to_irq p)
    modify (λ d. record d { irq = i })

  unfoldable pub own_irq : Run DvIrq → Out DvIrq (Unit {0})
  own_irq = do i ← call platform_get_irq; modify (λ d. record d { irq = i })

  unfoldable pub request : Run DvIrq → Out DvIrq (Unit {0})
  request = do
    d ← get
    on_error (do call (request_threaded_irq d.irq); pure tt) (tell (gpio_free d.irq_pin))

  unfoldable pub probe : Run DvIrq → Out DvIrq (Unit {0})
  unfolding pin_irq own_irq request
  probe = if not env.of_node then raise enxio else (do
    p ← ask of_get_named_gpio
    modify (λ d. record d { irq_pin = s16_of p })
    d ← get
    if env.gpio_is_valid d.irq_pin then pin_irq d.irq_pin else own_irq
    request)

  unfoldable pub remove : Run DvIrq → Out DvIrq (Unit {0})
  remove = do
    d ← get
    if is_positive d.irq then tell (free_irq d.irq) else pure tt
    if is_zero d.irq_pin then pure tt else tell (gpio_free d.irq_pin)

  -- A device that the bus gives to the driver and takes away after `n` interrupts, if it was bound.
  unfoldable pub bound : ℕ → Run DvIrq → Out DvIrq (Unit {0})
  unfolding probe remove
  bound n s = elim (probe s) [ ok _ t ↦ (interrupts n >> remove) t | err e t ↦ ok tt t ]
