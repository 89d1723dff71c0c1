-- ===== src/Mcp251xfd/Tests/Flows.antt =====
-- Short histories of the transmit path, and the message that loads a frame.
use yocto_layers.Common.{true, replicate, refl, false, none, [], ◌∷◌, arith}
use yocto_layers.Mcp251xfd.State.{error_active, Priv, TxObj, netif_start_queue}
use yocto_layers.Mcp251xfd.Monad.{Env, Drv, Out, ok, err, stuck}
use yocto_layers.Mcp251xfd.Setup.{ring_init}
use yocto_layers.Mcp251xfd.Ring.{get_tx_free, get_tef_linear_len}
use yocto_layers.Mcp251xfd.Tef.{handle_tefif}
use yocto_layers.Mcp251xfd.Tx.{tx_id, tx_flags, start_xmit, tx_ok, tx_obj_from_skb, round_up4}
use yocto_layers.Mcp251xfd.Tx.Message.{IsMessage, tx_obj_from_skb_lem}
use yocto_layers.Mcp251xfd.Flow.{meanwhile, start, later, xmit, reap, After}
use yocto_layers.Mcp251xfd.Flow.Refines.{ring_init-Refines}
use yocto_layers.Mcp251xfd.Flow.Wakes.{Full, ring_init-Full}
use yocto_layers.Mcp251xfd.Tests.{no_frame, example_priv, example_frame}

-- Every call succeeds, and every register reads 0.
abbrev quiet_env : Env
quiet_env = record {
  answer = λ _. record {
    err = none;
    val = 0;
    tef_objs = [];
    rx_objs = [];
    bytes = [];
    frame = no_frame;
    state = error_active;
  };
  sanity = false;
  dlc2len = λ n. n;
  len2dlc = λ n. n;
  stack = record { txerr = 0; rxerr = 0 };
}

abbrev state_after : {A : Type 0} → Out A → Drv → Drv
state_after (ok a t) s = t
state_after (err e t) s = t
state_after stuck s = s

abbrev fresh : Drv
fresh = record { priv = ring_init example_priv; calls = [] }

abbrev one_sent : Drv
one_sent =
    state_after
      (start_xmit ⦃env = quiet_env⦄ (meanwhile false ⦃env = quiet_env⦄) example_frame false fresh)
      fresh

abbrev one_done : Drv
one_done = state_after (handle_tefif ⦃env = quiet_env⦄ one_sent) one_sent

ring_init-Refines_example : After 8 (record { sent = 0; done = 0 }) 2 one_done.priv
unfolding start_xmit handle_tefif ring_init get_tx_free get_tef_linear_len
ring_init-Refines_example =
    ring_init-Refines 3 example_priv [] {c = 2} refl (omega arith) (omega arith) (
      later (later start (xmit quiet_env false false example_frame tx_ok refl))
        (reap quiet_env refl))

-- A FIFO of two objects, which two frames fill.
abbrev two_objects : Priv
two_objects = record example_priv { tx = record (example_priv.tx) { obj_num = 2 } }

abbrev started : Drv
started = record { priv = ring_init two_objects; calls = netif_start_queue ∷ [] }

abbrev sent_from : Drv → Drv
sent_from s =
    state_after
      (start_xmit ⦃env = quiet_env⦄ (meanwhile false ⦃env = quiet_env⦄) example_frame false s) s

ring_init-Full_example : Full (sent_from (sent_from started)).priv.tx
unfolding start_xmit ring_init get_tx_free
ring_init-Full_example =
    ring_init-Full 1 two_objects (netif_start_queue ∷ []) {c = 2} refl (omega arith) (omega arith)
      refl
      (later (later start (xmit quiet_env false false example_frame tx_ok refl))
        (xmit quiet_env false false example_frame tx_ok refl))
      refl

abbrev long_obj : TxObj
long_obj = record { buf = replicate 80 0; load_len = 0; rts_len = 4 }

abbrev loaded_obj : TxObj
loaded_obj = tx_obj_from_skb ⦃env = quiet_env⦄ example_priv long_obj example_frame true 7

tx_obj_from_skb_lem_example :
    IsMessage
      (0 ∷ 0 ∷ [])
      (tx_id example_frame.can_id)
      (tx_flags example_frame true 2 7)
      example_frame
      2
      loaded_obj
unfolding round_up4
tx_obj_from_skb_lem_example =
    tx_obj_from_skb_lem ⦃env = quiet_env⦄ example_priv long_obj example_frame true 7 refl refl
      (omega arith) (omega arith)
