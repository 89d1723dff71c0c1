-- ===== src/ModTests/Tests.antt =====
-- Runs of the test modules on a kernel that grants everything.
use yocto_layers.Common.{◌≡◌, refl, true, [], ◌∷◌, arith}
use yocto_layers.ModTests.Kernel.{pos, Env, Run}
use yocto_layers.ModTests.Owned.{Owns}
use yocto_layers.ModTests.Ends.{Ends}
use yocto_layers.ModTests.Gpio.{DvIrq, loaded}
use yocto_layers.ModTests.Gpio.Balance.{loaded-Balanced}
use yocto_layers.ModTests.Premux.{bound}
use yocto_layers.ModTests.Premux.Leftovers.{Left, NoError, bound-Left}
use yocto_layers.ModTests.Latency.{Intltest, interrupts}
use yocto_layers.ModTests.Latency.Extremes.{
  none_left, next, intervals, greatest, least_before_zero, interrupts_lem,
}

abbrev example_env : Env
example_env = record { answer = λ _. pos 3; of_node = true; gpio_is_valid = λ _. true }

abbrev example_run : Run DvIrq
example_run = record {
  vars = record { irq_pin = pos 0; irq_fired = 65535; irq = pos 0 };
  calls = [];
}

loaded-Balanced_example :
    Ends
      (λ _ t. Owns ⦃env = example_env⦄ [] t)
      (λ _ t. Owns ⦃env = example_env⦄ [] t)
      (loaded ⦃env = example_env⦄ (2 ∷ 0 ∷ []) example_run)
loaded-Balanced_example =
    loaded-Balanced (2 ∷ 0 ∷ []) [] ⦃env = example_env⦄ example_run (λ p cs e. cc) refl

bound-Left_example :
    Ends (λ _ t. Left [] ⦃env = example_env⦄ t) NoError (bound ⦃env = example_env⦄ 1 example_run)
bound-Left_example =
    bound-Left 1 [] ⦃env = example_env⦄ (λ p cs e. cc) (λ cs e. cc) example_run refl refl

abbrev unused : Intltest
unused = record { irq_fired = 0; irq = pos 7; int_last = 0; intl_min = 0; intl_max = 0 }

interrupts_lem_example :
    ((interrupts (10 ∷ 14 ∷ 14 ∷ 20 ∷ []) unused).intl_min
      ≡ least_before_zero (intervals 10 (14 ∷ 14 ∷ 20 ∷ []) []))
    × ((interrupts (10 ∷ 14 ∷ 14 ∷ 20 ∷ []) unused).intl_max
        ≡ greatest (intervals 10 (14 ∷ 14 ∷ 20 ∷ []) []))
interrupts_lem_example =
    interrupts_lem 10 (14 ∷ 14 ∷ 20 ∷ []) unused (λ e. omega (arith, e)) (omega arith)
      (next (omega arith) (omega arith)
        (next (omega arith) (omega arith) (next (omega arith) (omega arith) none_left)))
      refl refl refl

-- The shortest interval is 0, and the module shows 6.
shortest_forgotten : (interrupts (10 ∷ 14 ∷ 14 ∷ 20 ∷ []) unused).intl_min ≡ 6
unfolding interrupts
shortest_forgotten = refl
