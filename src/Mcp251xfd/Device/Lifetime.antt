-- ===== src/Mcp251xfd/Device/Lifetime.antt =====
-- A device from mcp251xfd_probe to mcp251xfd_remove, with what happens in between.
use yocto_layers.Common.{ℕ, ◌≡◌, List, [], ◌∷◌, sym, ap, ◌∙◌, none, some}
use yocto_layers.Mcp251xfd.Monad.{Env, Drv, M, pure, attempt, ◌>>=◌, ◌>>◌}
use yocto_layers.Mcp251xfd.State.{
  Priv, vdd_disable, vdd_enable, xceiver_disable, clk_prepare_enable,
}
use yocto_layers.Mcp251xfd.Does.{Does, pure-Does, then-Does, attempt-bind-Does, weaken-Does}
use yocto_layers.Mcp251xfd.Device.{ndo_open, ndo_stop}
use yocto_layers.Mcp251xfd.Device.Held.{Held, Wiring, wiring, Owns}
use yocto_layers.Mcp251xfd.Device.Power.{Reliable, powered, power-off, power-on-again}
use yocto_layers.Mcp251xfd.Device.Calm.Memory.{ringed}
use yocto_layers.Mcp251xfd.Device.Session.{ndo_open-Balanced, ndo_stop-Balanced}
use yocto_layers.Mcp251xfd.Device.Register.{runtime_suspend, runtime_resume}
use yocto_layers.Mcp251xfd.Device.Probe.{Platform, Locals, probe, remove}
use yocto_layers.Mcp251xfd.Device.Attach.{
  bound, Holds, Attached, Abandoned, Detached, probe-Attached, remove-Detached,
}

-- What happens between the probe and the removal: the interface is opened and stopped, or runtime power
-- management suspends the device and resumes it.
pub data Event : Type 0 where
  in_use suspended : Event

module _ (sizeof_rx_ring sizeof_ptr : ℕ) ⦃env : Env⦄ where
  -- The network stack stops an interface that has been opened.
  unfoldable pub session : M (Unit {0})
  session = do
    e ← attempt (ndo_open sizeof_rx_ring)
    elim e [ none ↦ ndo_stop sizeof_rx_ring | some _ ↦ pure tt ]

  -- While no use is counted, the kernel may suspend the device; it resumes it before the next use.
  unfoldable pub idle_period : M (Unit {0})
  idle_period = do
    runtime_suspend sizeof_rx_ring sizeof_ptr
    runtime_resume sizeof_rx_ring sizeof_ptr

  unfoldable pub history : List Event → M (Unit {0})
  unfolding session idle_period
  history [] = pure tt
  history (in_use ∷ es) = session >> history es
  history (suspended ∷ es) = idle_period >> history es

  unfoldable pub lifetime : List Event → Platform → Locals → Priv → M (Unit {0})
  unfolding history
  lifetime n d stack fresh = do
    probe sizeof_rx_ring sizeof_ptr d stack fresh
    history n
    remove sizeof_rx_ring sizeof_ptr

module _ (sizeof_rx_ring sizeof_ptr : ℕ) ⦃env : Env⦄ (rv : Reliable vdd_disable)
    (rx : Reliable xceiver_disable) (rc : Reliable clk_prepare_enable)
    (ro : Reliable vdd_enable) where
  session-Keeps :
      (h : Held) (w : Wiring) {K : Drv → Type 0}
      → Does (Owns h (ringed 0 w)) (Owns h (ringed 0 w)) K (session sizeof_rx_ring sizeof_ptr)
  unfolding session
  session-Keeps h w =
      attempt-bind-Does _ (ndo_open-Balanced h w sizeof_rx_ring rx)
        (ndo_stop-Balanced h w sizeof_rx_ring rx) (λ e. pure-Does tt)

  -- The clock and the power that the driver has switched on are switched off and on again.
  idle_period-Keeps :
      (h : Held) (w : Wiring) {K : Drv → Type 0}
      → Does
          (Owns (powered w.vdd h) (ringed 0 w))
          (Owns (powered w.vdd h) (ringed 0 w))
          K
          (idle_period sizeof_rx_ring sizeof_ptr)
  unfolding idle_period runtime_suspend runtime_resume
  idle_period-Keeps h w =
      then-Does {J = Owns h (ringed 0 w)} (power-off {h = h} {w = ringed 0 w} sizeof_rx_ring rv)
        (power-on-again {h = h} {w = ringed 0 w} sizeof_rx_ring rc ro)

  history-Keeps :
      (h : Held) (w : Wiring) {K : Drv → Type 0} (es : List Event)
      → Does
          (Owns (powered w.vdd h) (ringed 0 w))
          (Owns (powered w.vdd h) (ringed 0 w))
          K
          (history sizeof_rx_ring sizeof_ptr es)
  unfolding history
  history-Keeps h w [] = pure-Does tt
  history-Keeps h w (in_use ∷ es) =
      then-Does (session-Keeps (powered w.vdd h) w) (history-Keeps h w es)
  history-Keeps h w (suspended ∷ es) = then-Does (idle_period-Keeps h w) (history-Keeps h w es)

  used-Keeps :
      (h : Held) (speed : ℕ) (es : List Event) {K : Drv → Type 0}
      → Does (Attached h speed) (Attached h speed) K (history sizeof_rx_ring sizeof_ptr es)
  used-Keeps h speed es {K} = record {
    runs = λ s i.
        (weaken-Does {K' = K} (history-Keeps (bound h) (wiring s.priv) {K = K} es) (λ t j. j)
            (λ t j. (
              j.0 ∙ ap (λ k. powered k.vdd (bound h)) (sym j.1),
              ap (λ k. k.max_speed_hz_orig) j.1 ∙ i.1,
              ap (λ k. k.rings) j.1,
            ))
            (λ t j. j)).runs
          s (i.0, ap (λ n. ringed n (wiring s.priv)) i.2);
  }

  -- Where regulator_disable never fails, nor clk_prepare_enable or regulator_enable of the device's own
  -- regulator, and the private data that alloc_candev hands out have no RX ring: a device that is probed,
  -- then opened and stopped, or suspended and resumed, any number of times in any order, and removed, comes
  -- to an end for every sequence of other replies. When the probe succeeds, everything that was taken, the
  -- memory of the rings included, is given back at the end, whichever openings fail, and the SPI speed is as
  -- before; when it fails, everything is given back but perhaps the RX offload.
  pub lifetime-Balanced :
      (h : Held) (es : List Event) (d : Platform) (stack : Locals) (fresh : Priv)
      → fresh.rx ≡ []
      → Does
          (Holds h)
          (Detached h d.spi.max_speed_hz)
          (Abandoned h)
          (lifetime sizeof_rx_ring sizeof_ptr es d stack fresh)
  unfolding lifetime
  lifetime-Balanced h es d stack fresh empty =
      then-Does (probe-Attached h sizeof_rx_ring sizeof_ptr rv d stack fresh empty) (
        then-Does (used-Keeps h d.spi.max_speed_hz es)
          (remove-Detached h sizeof_rx_ring sizeof_ptr rv d.spi.max_speed_hz))
