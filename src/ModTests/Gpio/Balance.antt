-- ===== src/ModTests/Gpio/Balance.antt =====
-- Pins and interrupts that dv-int and dv-git take and give back.
use yocto_layers.Common.{ℕ, zero, suc, ◌≡◌, ◌≢◌, true, not, List, [], ◌∷◌, arith}
use yocto_layers.ModTests.Kernel.{
  ℤ, pos, Env, Call, gpio_to_irq, gpio_request, gpio_free, request_threaded_irq,
  platform_driver_register, on_error, tell, ◌>>◌, of_get_named_gpio, of_property_read_string, Run,
  Out, ok, err, u16_of, is_positive,
}
use yocto_layers.ModTests.Owned.{
  Thing, pin, irq, driver, Owns, taken_lem, refused_lem, give_back_lem,
}
use yocto_layers.ModTests.Ends.{
  Ends, returns, fails, if-Ends, on_error-Ends, called-Ends, then-Ends,
}
use yocto_layers.ModTests.Gpio.{
  DvIrq, test_irq_ih, test_irq_iht, interrupts, hook, probe, remove, bound, each, dv_init, dv_exit,
  loaded,
}

-- gpio_to_irq returns an error or an interrupt number, and no interrupt has the number 0.
abbrev pub NumbersIrqs : Env → Type 0
NumbersIrqs env = (p : ℤ) (cs : List Call) → env.answer (gpio_to_irq p ∷ cs) ≢ pos 0

pub positive : (r : ℤ) (n : ℕ) → r ≡ pos n → r ≢ pos 0 → is_positive (pos n) ≡ true
unfolding is_positive
positive r zero e h = absurd (h e)
positive r (suc n) e h = ground arith

module _ (ts : List Thing) ⦃env : Env⦄ (numbers : NumbersIrqs env) where
  -- The device is bound: its pin and its interrupt are the ones the static variables name.
  abbrev Ready : Run DvIrq → Type 0
  Ready t = Owns (irq t.vars.irq ∷ pin t.vars.irq_pin ∷ ts) t × (is_positive t.vars.irq ≡ true)

  hook-Ready :
      (s : Run DvIrq)
      → Owns (pin s.vars.irq_pin ∷ ts) s
      → Ends (λ _ t. Ready t) (λ _ t. Owns (pin s.vars.irq_pin ∷ ts) t) (hook s.vars.irq_pin s)
  unfolding hook
  hook-Ready s h =
      called-Ends (gpio_to_irq s.vars.irq_pin) _ s
        (λ n e.
          called-Ends (request_threaded_irq (pos n)) _ _
            (λ m f.
              returns
                (taken_lem (irq (pos n)) _ m f h, positive _ n e (numbers s.vars.irq_pin s.calls)))
            (λ m f. refused_lem (irq (pos n)) _ m f h))
        (λ n e. h)

  requested :
      (s : Run DvIrq)
      → Owns (pin s.vars.irq_pin ∷ ts) s
      → Ends
          (λ _ t. Ready t)
          (λ _ t. Owns ts t)
          (on_error (hook s.vars.irq_pin) (tell (gpio_free s.vars.irq_pin)) s)
  requested s h =
      on_error-Ends (tell (gpio_free s.vars.irq_pin)) (hook-Ready s h)
        (λ e t i. returns (give_back_lem (pin s.vars.irq_pin) i))

  probe-Ready : (s : Run DvIrq) → Owns ts s → Ends (λ _ t. Ready t) (λ _ t. Owns ts t) (probe s)
  unfolding probe
  probe-Ready s h =
      if-Ends (not env.of_node) _ _ s (λ _. fails h)
        (λ _.
          if-Ends
            (not (
              env.gpio_is_valid
                (u16_of (env.answer (of_get_named_gpio ∷ of_property_read_string ∷ s.calls)))))
            _ _ _ (λ _. fails h)
            (λ _.
              called-Ends
                (gpio_request
                  (u16_of (env.answer (of_get_named_gpio ∷ of_property_read_string ∷ s.calls))))
                _ _ (λ n e. requested _ (taken_lem (pin _) _ n e h))
                (λ n e. refused_lem (pin _) _ n e h)))

  remove-Owns :
      {Q : ℤ → Run DvIrq → Type 0} (s : Run DvIrq) → Ready s → Ends (λ _ t. Owns ts t) Q (remove s)
  unfolding remove
  remove-Owns s h =
      rw h.1 (returns (give_back_lem (pin s.vars.irq_pin) (give_back_lem (irq s.vars.irq) h.0)))

  interrupts-Ready :
      {Q : ℤ → Run DvIrq → Type 0} (n : ℕ) (s : Run DvIrq)
      → Ready s
      → Ends (λ _ t. Ready t) Q (interrupts n s)
  unfolding interrupts test_irq_ih test_irq_iht
  interrupts-Ready zero s h = returns h
  interrupts-Ready (suc n) s h = interrupts-Ready n _ h

  used :
      {Q : ℤ → Run DvIrq → Type 0} (n : ℕ) {o : Out DvIrq (Unit {0})}
      → Ends (λ _ t. Ready t) (λ _ t. Owns ts t) o
      → Ends
          (λ _ t. Owns ts t)
          Q
          (elim o [ ok _ t ↦ (interrupts n >> remove) t | err e t ↦ ok tt t ])
  used n (returns h) =
      then-Ends (interrupts n) remove _ (interrupts-Ready n _ h) (λ _ t i. remove-Owns t i)
  used n (fails h) = returns h

  each-Owns :
      {Q : ℤ → Run DvIrq → Type 0} (ns : List ℕ) (s : Run DvIrq)
      → Owns ts s
      → Ends (λ _ t. Owns ts t) Q (each ns s)
  unfolding each bound
  each-Owns [] s h = returns h
  each-Owns (n ∷ ns) s h =
      then-Ends (bound n) (each ns) s (used n (probe-Ready s h)) (λ _ t i. each-Owns ns t i)

-- Where gpio_to_irq never gives the interrupt number 0, a module that is loaded, bound to one device
-- after another, each for any number of interrupts, and unloaded, gives back every pin, interrupt and
-- registration it has taken, and nothing else, whichever calls fail; so it does when it fails to load.
pub loaded-Balanced :
    (ns : List ℕ) (ts : List Thing) ⦃env : Env⦄ (s : Run DvIrq)
    → NumbersIrqs env
    → Owns ts s
    → Ends (λ _ t. Owns ts t) (λ _ t. Owns ts t) (loaded ns s)
unfolding loaded dv_init dv_exit
loaded-Balanced ns ts s numbers h =
    then-Ends dv_init _ s
      (called-Ends platform_driver_register _ _ (λ n e. returns (taken_lem driver _ n e h))
        (λ n e. refused_lem driver _ n e h))
      (λ _ t i.
        then-Ends (each ns) dv_exit t (each-Owns (driver ∷ ts) numbers ns t i)
          (λ _ u j. returns (give_back_lem driver j)))
