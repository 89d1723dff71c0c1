-- ===== src/ModTests/Premux/Leftovers.antt =====
-- What dv-irq-tst leaves taken, or gives back without having taken it.
use yocto_layers.Common.{
  ℕ, zero, suc, ◌≡◌, ◌≢◌, refl, Bool, true, false, not, Option, some, List, ◌∷◌, if◌then◌else◌,
}
use mathlib.Core.Option
use yocto_layers.ModTests.Kernel.{
  ℤ, pos, Env, Call, of_get_named_gpio, gpio_direction_input, gpio_to_irq, gpio_request, gpio_free,
  platform_get_irq, request_threaded_irq, free_irq, tell, ◌>>◌, Run, Out, ok, err, s16_of,
  is_positive,
}
use yocto_layers.ModTests.Owned.{
  Thing, pin, irq, owned, Owns, give_back, taken_lem, refused_lem, give_back_lem,
}
use yocto_layers.ModTests.Ends.{
  Ends, returns, fails, if-Ends, on_error-Ends, called-Ends, then-Ends,
}
use yocto_layers.ModTests.Gpio.{DvIrq, interrupts, test_irq_ih, test_irq_iht}
use yocto_layers.ModTests.Gpio.Balance.{NumbersIrqs, positive}
use yocto_layers.ModTests.Premux.{pin_irq, own_irq, request, probe, remove, bound, is_zero}

-- What is owned at the end, by the last call: a failure of gpio_direction_input or gpio_to_irq leaves the
-- pin, and so does the removal of a device on pin 0; without a valid pin, a pin is given back that was
-- not taken.
abbrev pub left_by : Bool → ℤ → List Thing → List Call → Option (List Thing)
left_by valid p ts (gpio_direction_input q ∷ cs) = some (pin p ∷ ts)
left_by valid p ts (gpio_to_irq q ∷ cs) = some (pin p ∷ ts)
left_by valid p ts (gpio_free q ∷ cs) = if valid then some ts else give_back (pin p) ts
left_by valid p ts (free_irq q ∷ cs) = some (if valid then pin p ∷ ts else ts)
left_by valid p ts cs = some ts

-- platform_get_irq gives no interrupt the number 0 either.
abbrev pub NumbersOwnIrqs : Env → Type 0
NumbersOwnIrqs env = (cs : List Call) → env.answer (platform_get_irq ∷ cs) ≢ pos 0

module _ (ts : List Thing) ⦃env : Env⦄ where
  abbrev pub Left : Run DvIrq → Type 0
  Left t = owned t.calls ≡ left_by (env.gpio_is_valid t.vars.irq_pin) t.vars.irq_pin ts t.calls

module _ (ts : List Thing) ⦃env : Env⦄ (numbers : NumbersIrqs env) (own : NumbersOwnIrqs env) where
  -- The pin, if there is a valid one.
  abbrev pins : Run DvIrq → List Thing
  pins t = if env.gpio_is_valid t.vars.irq_pin then pin t.vars.irq_pin ∷ ts else ts

  -- An interrupt number is known.
  abbrev Known : Run DvIrq → Type 0
  Known t = Owns (pins t) t × (is_positive t.vars.irq ≡ true)

  abbrev Ready : Run DvIrq → Type 0
  Ready t = Owns (irq t.vars.irq ∷ pins t) t × (is_positive t.vars.irq ≡ true)

  pin_irq-Known :
      (s : Run DvIrq)
      → Owns ts s
      → env.gpio_is_valid s.vars.irq_pin ≡ true
      → Ends (λ _ t. Known t) (λ _ t. Left ts t) (pin_irq s.vars.irq_pin s)
  unfolding pin_irq
  pin_irq-Known s h valid =
      let p = s.vars.irq_pin in
      called-Ends (gpio_request p) _ s
        (λ n e.
          let held = taken_lem (pin p) _ n e h in
          called-Ends (gpio_direction_input p) _ _
            (λ m f.
              called-Ends (gpio_to_irq p) _ _
                (λ k g. returns (rw valid held, positive _ k g (numbers p _))) (λ k g. held))
            (λ m f. held))
        (λ n e. refused_lem (pin p) _ n e h)

  own_irq-Known :
      (s : Run DvIrq)
      → Owns ts s
      → env.gpio_is_valid s.vars.irq_pin ≡ false
      → Ends (λ _ t. Known t) (λ _ t. Left ts t) (own_irq s)
  unfolding own_irq
  own_irq-Known s h invalid =
      called-Ends platform_get_irq _ s (λ n e. returns (rw invalid h, positive _ n e (own s.calls)))
        (λ n e. h)

  given_back :
      (valid : Bool) (p : ℤ) {o : Option (List Thing)}
      → o ≡ some (if valid then pin p ∷ ts else ts)
      → Option.bind o (give_back (pin p)) ≡ (if valid then some ts else give_back (pin p) ts)
  unfolding Option.bind
  given_back true p e = give_back_lem (pin p) e
  given_back false p e = rw e refl

  request-Ready : (s : Run DvIrq) → Known s → Ends (λ _ t. Ready t) (λ _ t. Left ts t) (request s)
  unfolding request
  request-Ready s h =
      on_error-Ends {Q' = λ _ t. Owns (pins s) t × (t.vars ≡ s.vars)}
        (tell (gpio_free s.vars.irq_pin))
        (called-Ends (request_threaded_irq s.vars.irq) _ s
          (λ n e. returns (taken_lem (irq s.vars.irq) _ n e h.0, h.1))
          (λ n e. (refused_lem (irq s.vars.irq) _ n e h.0, refl)))
        (λ e t i. returns (rw i.1 (given_back _ s.vars.irq_pin i.0)))

  chosen-Ready :
      (s : Run DvIrq)
      → Owns ts s
      → Ends
          (λ _ t. Ready t)
          (λ _ t. Left ts t)
          (((if env.gpio_is_valid s.vars.irq_pin then pin_irq s.vars.irq_pin else own_irq)
              >> request)
            s)
  chosen-Ready s h =
      then-Ends (if env.gpio_is_valid s.vars.irq_pin then pin_irq s.vars.irq_pin else own_irq)
        request s
        (if-Ends (env.gpio_is_valid s.vars.irq_pin) (pin_irq s.vars.irq_pin) own_irq s
          (λ valid. pin_irq-Known s h valid) (λ invalid. own_irq-Known s h invalid))
        (λ _ t k. request-Ready t k)

  -- The state once the pin is looked up.
  abbrev looked_up : Run DvIrq → Run DvIrq
  looked_up s = record {
    vars = record (s.vars) { irq_pin = s16_of (env.answer (of_get_named_gpio ∷ s.calls)) };
    calls = of_get_named_gpio ∷ s.calls;
  }

  probe-Ready :
      (s : Run DvIrq)
      → env.of_node ≡ true
      → Owns ts s
      → Ends (λ _ t. Ready t) (λ _ t. Left ts t) (probe s)
  unfolding probe
  probe-Ready s node h =
      if-Ends (not env.of_node) _ _ s (λ e. absurd (cc)) (λ _. chosen-Ready (looked_up s) h)

  removed :
      (valid : Bool) (p : ℤ) (t : Run DvIrq)
      → owned t.calls ≡ some (irq t.vars.irq ∷ (if valid then pin p ∷ ts else ts))
      → Owns (if valid then pin p ∷ ts else ts) (record t { calls = free_irq t.vars.irq ∷ t.calls })
  removed valid p t h = give_back_lem (irq t.vars.irq) h

  remove-Left :
      {Q : ℤ → Run DvIrq → Type 0} (s : Run DvIrq) → Ready s → Ends (λ _ t. Left ts t) Q (remove s)
  unfolding remove
  remove-Left s h = rw h.1 (
      if-Ends (is_zero s.vars.irq_pin) _ _ _ (λ _. returns (removed _ s.vars.irq_pin s h.0))
        (λ _. returns (given_back _ s.vars.irq_pin (removed _ s.vars.irq_pin s h.0))))

  interrupts-Ready :
      {Q : ℤ → Run DvIrq → Type 0} (n : ℕ) (s : Run DvIrq)
      → Ready s
      → Ends (λ _ t. Ready t) Q (interrupts n s)
  unfolding interrupts test_irq_ih test_irq_iht
  interrupts-Ready zero s h = returns h
  interrupts-Ready (suc n) s h = interrupts-Ready n _ h

  used :
      {Q : ℤ → Run DvIrq → Type 0} (n : ℕ) {o : Out DvIrq (Unit {0})}
      → Ends (λ _ t. Ready t) (λ _ t. Left ts t) o
      → Ends
          (λ _ t. Left ts t)
          Q
          (elim o [ ok _ t ↦ (interrupts n >> remove) t | err e t ↦ ok tt t ])
  used n (returns h) =
      then-Ends (interrupts n) remove _ (interrupts-Ready n _ h) (λ _ t i. remove-Left t i)
  used n (fails h) = returns h

abbrev pub NoError : ℤ → Run DvIrq → Type 0
NoError e t = ⊥

pub bound-Left :
    (n : ℕ) (ts : List Thing) ⦃env : Env⦄ (numbers : NumbersIrqs env) (own : NumbersOwnIrqs env)
    (s : Run DvIrq)
    → env.of_node ≡ true
    → Owns ts s
    → Ends (λ _ t. Left ts t) NoError (bound n s)
unfolding bound
bound-Left n ts numbers own s node h = used ts numbers own n (probe-Ready ts numbers own s node h)
