-- ===== src/Mcp251xfd/Tests/Life.antt =====
-- Runs of the life cycle on the small device.
use yocto_layers.Common.{[], ◌∷◌, ◌≡◌, refl, true, false, none, some}
use yocto_layers.Mcp251xfd.Monad.{◌>>◌}
use yocto_layers.Mcp251xfd.Does.{Does}
use yocto_layers.Mcp251xfd.State.{Priv}
use yocto_layers.Mcp251xfd.Maps.{regmap_init}
use yocto_layers.Mcp251xfd.Maps.Choice.{At, chosen, regmap_init-chosen}
use yocto_layers.Mcp251xfd.Device.{devtype_mcp2518fd, ndo_open}
use yocto_layers.Mcp251xfd.Device.Held.{Owns, nothing, wiring}
use yocto_layers.Mcp251xfd.Device.Power.{powered}
use yocto_layers.Mcp251xfd.Device.Calm.Memory.{ringed}
use yocto_layers.Mcp251xfd.Device.Session.{opened, ndo_open-Balanced}
use yocto_layers.Mcp251xfd.Device.Register.{register, runtime_suspend}
use yocto_layers.Mcp251xfd.Device.Enlist.{enlisted, register-Idle}
use yocto_layers.Mcp251xfd.Device.Probe.{Platform, Locals, probe}
use yocto_layers.Mcp251xfd.Device.Attach.{
  Holds, Attached, Abandoned, Detached, Suspended, probe-Idle,
}
use yocto_layers.Mcp251xfd.Device.Lifetime.{in_use, suspended, lifetime, lifetime-Balanced}
use yocto_layers.Mcp251xfd.Post.{Ends}
use yocto_layers.Mcp251xfd.Chip.{start, set_mode}
use yocto_layers.Mcp251xfd.Chip.Restart.{Running, Failed, set_mode-Restarts}
use yocto_layers.Mcp251xfd.Tests.{example_env, example_priv, example_drv}

abbrev example_platform : Platform
example_platform = record {
  irq = 17;
  spi = record { max_speed_hz = 20_000_000; bits_per_word = 8; rt = false };
  half_duplex = false;
  iocon = none;
  oscva = some 0x60;
  nober = false;
  noslp = true;
  match = none;
  driver_data = devtype_mcp2518fd;
}

abbrev empty_priv : Priv
empty_priv = record example_priv { rx = [] }

abbrev example_locals : Locals
example_locals = record { dviocon = 0; dvoscva = 0 }

lifetime-Balanced_example :
    Does
      (Holds ⦃env = example_env⦄ nothing)
      (Detached ⦃env = example_env⦄ nothing 20_000_000)
      (Abandoned ⦃env = example_env⦄ nothing)
      (lifetime 700 8 ⦃env = example_env⦄
        (in_use ∷ suspended ∷ in_use ∷ [])
        example_platform
        example_locals
        empty_priv)
lifetime-Balanced_example =
    lifetime-Balanced 700 8 ⦃env = example_env⦄ (λ cs. refl) (λ cs. refl) (λ cs. refl) (λ cs. refl)
      nothing (in_use ∷ suspended ∷ in_use ∷ []) example_platform example_locals empty_priv refl

probe-Idle_example :
    Does
      (Holds ⦃env = example_env⦄ nothing)
      (Attached ⦃env = example_env⦄ nothing 20_000_000)
      (Abandoned ⦃env = example_env⦄ nothing)
      (probe 700 8 ⦃env = example_env⦄ example_platform example_locals empty_priv)
    × Does
        (Holds ⦃env = example_env⦄ nothing)
        (Suspended ⦃env = example_env⦄ nothing 20_000_000)
        (Abandoned ⦃env = example_env⦄ nothing)
        (probe 700 8 ⦃env = example_env⦄ example_platform example_locals empty_priv
          >> runtime_suspend 700 8 ⦃env = example_env⦄)
probe-Idle_example =
    probe-Idle nothing 700 8 ⦃env = example_env⦄ (λ cs. refl) example_platform example_locals
      empty_priv refl

register-Idle_example :
    Does
      (Owns ⦃env = example_env⦄ nothing (wiring example_priv))
      (Owns ⦃env = example_env⦄ (powered true (enlisted nothing)) (wiring example_priv))
      (Owns ⦃env = example_env⦄ nothing (wiring example_priv))
      (register 700 8 ⦃env = example_env⦄ false)
    × Does
        (Owns ⦃env = example_env⦄ nothing (wiring example_priv))
        (Owns ⦃env = example_env⦄ (enlisted nothing) (wiring example_priv))
        (Owns ⦃env = example_env⦄ nothing (wiring example_priv))
        (register 700 8 ⦃env = example_env⦄ false >> runtime_suspend 700 8 ⦃env = example_env⦄)
register-Idle_example =
    register-Idle nothing (wiring example_priv) 700 8 ⦃env = example_env⦄ (λ cs. refl) false

ndo_open-Balanced_example :
    Does
      (Owns ⦃env = example_env⦄ nothing (ringed 0 (wiring example_priv)))
      (Owns ⦃env = example_env⦄ (opened true nothing) (ringed 1 (wiring example_priv)))
      (Owns ⦃env = example_env⦄ nothing (ringed 0 (wiring example_priv)))
      (ndo_open 700 ⦃env = example_env⦄)
ndo_open-Balanced_example =
    ndo_open-Balanced nothing (wiring example_priv) 700 ⦃env = example_env⦄ (λ cs. refl)

regmap_init-chosen_example :
    Does
      (λ s. s.priv ≡ example_priv)
      (At example_priv (chosen true true example_priv.maps))
      (λ _. Unit {0})
      (regmap_init ⦃env = example_env⦄)
regmap_init-chosen_example = regmap_init-chosen example_priv ⦃env = example_env⦄

set_mode-Restarts_example :
    Ends
      (λ _ t. Running t)
      (λ _ t. Failed ⦃env = example_env⦄ example_drv.priv.can_state t)
      (set_mode ⦃env = example_env⦄ start example_drv)
set_mode-Restarts_example = set_mode-Restarts ⦃env = example_env⦄ example_drv
