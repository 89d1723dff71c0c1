-- ===== src/Mcp251xfd/Tests/Receive.antt =====
-- The receive path, the bit timing and the TX objects' addresses on the small device.
use yocto_layers.Common.{◌≡◌, ◌↔◌, refl, false, some, arith}
use yocto_layers.Mcp251xfd.Post.{Ends}
use yocto_layers.Mcp251xfd.Ring.{get_rx_len, get_tx_nr_by_addr}
use yocto_layers.Mcp251xfd.Ring.Addr.{InObject, get_tx_nr_by_addr_lem}
use yocto_layers.Mcp251xfd.Configure.{set_bittiming}
use yocto_layers.Mcp251xfd.Configure.Timing as Timing
use yocto_layers.Mcp251xfd.Configure.Timing.{Programmed, set_bittiming-Programmed}
use yocto_layers.Mcp251xfd.Rx.{rx_ring, handle_rxif_ring}
use yocto_layers.Mcp251xfd.Rx.Drain.{AnyError}
use yocto_layers.Mcp251xfd.Rx.Deliver.{Delivers, handle_rxif_ring-Delivers}
use yocto_layers.Mcp251xfd.Tests.{timing, example_tx, example_env, example_drv}

handle_rxif_ring-Delivers_example :
    Ends
      (λ _ t. (get_rx_len (rx_ring 0 t.priv) ≡ 0) × Delivers ⦃env = example_env⦄ 5 example_drv t)
      AnyError
      (handle_rxif_ring ⦃env = example_env⦄ 0 example_drv)
handle_rxif_ring-Delivers_example =
    handle_rxif_ring-Delivers 5 0 5 ⦃env = example_env⦄ example_drv (λ b cs. refl) (omega arith)
      (omega arith) refl (omega arith) refl (λ e. omega (arith, e))

set_bittiming-Programmed_example :
    Ends
      (λ _ t. Programmed false timing timing t)
      Timing.AnyError
      (set_bittiming ⦃env = example_env⦄ example_drv)
set_bittiming-Programmed_example =
    set_bittiming-Programmed ⦃env = example_env⦄ example_drv
      (record {
        tseg1_low = omega arith;
        tseg1_high = omega arith;
        tseg2_low = omega arith;
        tseg2_high = omega arith;
        sjw_low = omega arith;
        sjw_high = omega arith;
        brp_low = omega arith;
        brp_high = omega arith;
      })
      (record {
        tseg1_low = omega arith;
        tseg1_high = omega arith;
        tseg2_low = omega arith;
        tseg2_high = omega arith;
        sjw_low = omega arith;
        sjw_high = omega arith;
        brp_low = omega arith;
        brp_high = omega arith;
      })

get_tx_nr_by_addr_lem_example :
    (get_tx_nr_by_addr example_tx 0x4a5 ≡ some 4) ↔ InObject example_tx 0x4a5 4
get_tx_nr_by_addr_lem_example =
    get_tx_nr_by_addr_lem example_tx (omega arith) (omega arith) (omega arith) 0x4a5 4
