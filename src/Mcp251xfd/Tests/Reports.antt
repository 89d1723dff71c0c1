-- ===== src/Mcp251xfd/Tests/Reports.antt =====
-- Errors, interrupts and register updates on the small device.
use yocto_layers.Common.{ℕ, refl, false, none, List, [], ◌∷◌, arith}
use yocto_layers.Mcp251xfd.State.{Call, Reply, CanState, error_active, can_change_state}
use yocto_layers.Mcp251xfd.Monad.{Env}
use yocto_layers.Mcp251xfd.Post.{Ends}
use yocto_layers.Mcp251xfd.Spi.{first_byte_set, last_byte_set, byte_count}
use yocto_layers.Mcp251xfd.Regmap.{regmap_nocrc_update_bits}
use yocto_layers.Mcp251xfd.Regmap.Update.{Updated, update_bits-Updated}
use yocto_layers.Mcp251xfd.Errors.{handle_cerrif, handle_eccif}
use yocto_layers.Mcp251xfd.Errors.States.{In, AnyState, worse, trec_state, handle_cerrif-In}
use yocto_layers.Mcp251xfd.Errors.Repeat.{Loads, handle_eccif-Loads}
use yocto_layers.Mcp251xfd.Reset.Retry
use yocto_layers.Mcp251xfd.Irq.{irq}
use yocto_layers.Mcp251xfd.Irq.Leaves.{Leaves, Only, irq-Only}
use yocto_layers.Mcp251xfd.Tests.{no_frame, example_env, example_drv}

-- A register that reads `val`, in a system that is in state `c`.
abbrev reply : ℕ → CanState → Reply
reply val c = record {
  err = none;
  val = val;
  tef_objs = [];
  rx_objs = [];
  bytes = [];
  frame = no_frame;
  state = c;
}

-- TREC shows bus off, and can_change_state does what it is documented to do.
abbrev bus_off_answer : List Call → Reply
bus_off_answer (can_change_state cf tx rx ∷ cs) = reply 0 (worse tx rx)
bus_off_answer cs = reply 0x20_0000 error_active

abbrev bus_off_env : Env
bus_off_env = record {
  answer = bus_off_answer;
  sanity = false;
  dlc2len = λ n. n;
  len2dlc = λ n. n;
  stack = record { txerr = 0; rxerr = 0 };
}

handle_cerrif-In_example :
    Ends
      (λ _ t. In (trec_state 0x20_0000) t)
      AnyState
      (handle_cerrif ⦃env = bus_off_env⦄ example_drv)
handle_cerrif-In_example = handle_cerrif-In ⦃env = bus_off_env⦄ example_drv (λ cf tx rx cs. refl)

handle_eccif-Loads_example :
    Ends (λ _ t. Loads 0 t) (λ _ t. Loads 0 t) (handle_eccif ⦃env = example_env⦄ false example_drv)
handle_eccif-Loads_example =
    handle_eccif-Loads false ⦃env = example_env⦄ example_drv (λ e. omega (arith, e))

irq-Only_example :
    Only ⦃env = example_env⦄ (Leaves ⦃env = example_env⦄) (irq ⦃env = example_env⦄ 2 5 example_drv)
irq-Only_example = irq-Only ⦃env = example_env⦄ 2 5 example_drv

update_bits-Updated_example :
    Ends
      (λ _ t. Updated ⦃env = example_env⦄ 0x44 0xff00 0x1200 1 t)
      Retry.AnyError
      (regmap_nocrc_update_bits ⦃env = example_env⦄ 0x44 0xff00 0x1200 example_drv)
unfolding byte_count last_byte_set first_byte_set
update_bits-Updated_example =
    update_bits-Updated 0x44 0xff00 0x1200 1 ⦃env = example_env⦄ example_drv (λ e. omega (arith, e))
      (omega arith) (omega arith) (omega arith)
