-- ===== src/Mcp251xfd/Device/Session.antt =====
-- What is held after mcp251xfd_open and mcp251xfd_stop.
use yocto_layers.Common.{ℕ, Bool, refl, none}
use yocto_layers.Mcp251xfd.Monad.{Env, Drv, M}
use yocto_layers.Mcp251xfd.State.{
  stopped, xceiver_enable, xceiver_disable, pm_runtime_get_sync, pm_runtime_put,
  pm_runtime_put_noidle, open_candev, close_candev, can_rx_offload_enable, can_rx_offload_disable,
  request_threaded_irq, free_irq, netif_start_queue, netif_stop_queue,
}
use yocto_layers.Mcp251xfd.Does.{Does, then-Does, attempt-Does, on_error-Does, tell-Keeps}
use yocto_layers.Mcp251xfd.Device.{
  ndo_open, ndo_stop, out_runtime_put, out_close_candev, out_ring_free, out_transceiver_disable,
  out_rx_offload_disable, out_free_irq,
}
use yocto_layers.Mcp251xfd.Device.Held.{Held, Wiring, effect, Owns}
use yocto_layers.Mcp251xfd.Device.Power.{
  Reliable, switched, tell-Owns, call-Owns, call-always, transceiver-on, transceiver-off,
}
use yocto_layers.Mcp251xfd.Device.Calm.{
  interrupts_enable-Calm, interrupts_disable-Calm, chip_stop-Calm, chip_start-Calm,
}
use yocto_layers.Mcp251xfd.Device.Calm.Memory.{ringed, allocated, ring_free-Owns, ring_alloc-Owns}

-- mcp251xfd_open holds these.
abbrev pub opened : Bool → Held → Held
opened x h = effect request_threaded_irq none (
    effect can_rx_offload_enable none (
      switched x xceiver_enable
        (allocated (effect open_candev none (effect pm_runtime_get_sync none h)))))

module _ (h : Held) (w : Wiring) (sizeof_rx_ring : ℕ) ⦃env : Env⦄
    (r : Reliable xceiver_disable) where
  -- With `n` rings before, none after.
  abbrev Gives : ℕ → Held → M (Unit {0}) → Type 0
  Gives n k m = Does (Owns k (ringed n w)) (Owns h (ringed 0 w)) (Owns h (ringed 0 w)) m

  runtime_put-Gives : Gives 0 (effect pm_runtime_get_sync none h) (out_runtime_put sizeof_rx_ring)
  unfolding out_runtime_put
  runtime_put-Gives =
      then-Does (attempt-Does (chip_stop-Calm _ (ringed 0 w) stopped)) (tell-Owns _ (λ _. refl))

  close_candev-Gives :
      Gives 0
        (effect open_candev none (effect pm_runtime_get_sync none h))
        (out_close_candev sizeof_rx_ring)
  unfolding out_close_candev
  close_candev-Gives = then-Does (tell-Owns close_candev (λ _. refl)) runtime_put-Gives

  ring_free-Gives :
      Gives 1
        (allocated (effect open_candev none (effect pm_runtime_get_sync none h)))
        (out_ring_free sizeof_rx_ring)
  unfolding out_ring_free
  ring_free-Gives = then-Does (ring_free-Owns _ w sizeof_rx_ring) close_candev-Gives

  transceiver_disable-Gives :
      Gives 1
        (switched w.xceiver xceiver_enable
          (allocated (effect open_candev none (effect pm_runtime_get_sync none h))))
        (out_transceiver_disable sizeof_rx_ring)
  unfolding out_transceiver_disable
  transceiver_disable-Gives =
      then-Does (attempt-Does (transceiver-off sizeof_rx_ring r)) ring_free-Gives

  rx_offload_disable-Gives :
      Gives 1
        (effect can_rx_offload_enable none (
          switched w.xceiver xceiver_enable
            (allocated (effect open_candev none (effect pm_runtime_get_sync none h)))))
        (out_rx_offload_disable sizeof_rx_ring)
  unfolding out_rx_offload_disable
  rx_offload_disable-Gives =
      then-Does (tell-Owns can_rx_offload_disable (λ _. refl)) transceiver_disable-Gives

  free_irq-Gives : Gives 1 (opened w.xceiver h) (out_free_irq sizeof_rx_ring)
  unfolding out_free_irq
  free_irq-Gives = then-Does (tell-Owns free_irq (λ _. refl)) rx_offload_disable-Gives

  -- Where regulator_disable does not fail, mcp251xfd_open of an interface without an RX ring comes to an end
  -- for every sequence of replies. On success there is one RX ring, and the driver holds its memory, one use
  -- of the device, the open interface, the transceiver's power if there is a regulator for it, the polling
  -- and the interrupt more than before; on failure, whatever step fails, there is no RX ring and the driver
  -- holds what it held before.
  pub ndo_open-Balanced :
      Does
        (Owns h (ringed 0 w))
        (Owns (opened w.xceiver h) (ringed 1 w))
        (Owns h (ringed 0 w))
        (ndo_open sizeof_rx_ring)
  unfolding ndo_open
  ndo_open-Balanced =
      then-Does
        (on_error-Does (call-always pm_runtime_get_sync (λ _. refl))
          (tell-Owns pm_runtime_put_noidle (λ _. refl)))
        (then-Does (on_error-Does (call-Owns open_candev (λ _. refl)) runtime_put-Gives) (
          then-Does (on_error-Does (ring_alloc-Owns _ w sizeof_rx_ring) close_candev-Gives) (
            then-Does (on_error-Does (transceiver-on sizeof_rx_ring) ring_free-Gives) (
              then-Does (on_error-Does (chip_start-Calm _ (ringed 1 w)) transceiver_disable-Gives) (
                then-Does (tell-Owns can_rx_offload_enable (λ _. refl)) (
                  then-Does
                    (on_error-Does (call-Owns request_threaded_irq (λ _. refl))
                      rx_offload_disable-Gives)
                    (then-Does
                      (on_error-Does (interrupts_enable-Calm _ (ringed 1 w)) free_irq-Gives)
                      (tell-Keeps netif_start_queue (λ s i. i)))))))))

  -- Where regulator_disable does not fail, mcp251xfd_stop comes to an end for every sequence of replies,
  -- does not fail, and gives back exactly what mcp251xfd_open has taken, the ring's memory included.
  pub ndo_stop-Balanced :
      {K : Drv → Type 0}
      → Does
          (Owns (opened w.xceiver h) (ringed 1 w))
          (Owns h (ringed 0 w))
          K
          (ndo_stop sizeof_rx_ring)
  unfolding ndo_stop
  ndo_stop-Balanced = then-Does (tell-Keeps netif_stop_queue (λ s i. i)) (
      then-Does (attempt-Does (interrupts_disable-Calm _ (ringed 1 w))) (
        then-Does (tell-Owns free_irq (λ _. refl)) (
          then-Does (tell-Owns can_rx_offload_disable (λ _. refl)) (
            then-Does (attempt-Does (chip_stop-Calm _ (ringed 1 w) stopped)) (
              then-Does (attempt-Does (transceiver-off sizeof_rx_ring r)) (
                then-Does (ring_free-Owns _ w sizeof_rx_ring) (
                  then-Does (tell-Owns close_candev (λ _. refl))
                    (tell-Owns pm_runtime_put (λ _. refl)))))))))
