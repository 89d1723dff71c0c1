-- ===== src/Mcp251xfd/Tests/Recovery.antt =====
-- A device whose chip reports the same ECC error again, in the object that it transmits next.
use yocto_layers.Common.{
  ℕ, ◌≡◌, refl, Bool, true, false, none, List, [], ◌∷◌, replicate, ◌==◌, if◌then◌else◌, arith,
}
use yocto_layers.Mcp251xfd.Regs
use yocto_layers.Mcp251xfd.Monad.{Env, Drv, Out, ok, err, stuck}
use yocto_layers.Mcp251xfd.State.{Call, Reply, error_active, reg_read}
use yocto_layers.Mcp251xfd.Post.{Ends}
use yocto_layers.Mcp251xfd.Ring.{get_tx_nr_by_addr, get_tx_tail}
use yocto_layers.Mcp251xfd.Tef.{tx_tail_get_from_chip}
use yocto_layers.Mcp251xfd.Mode.{chip_set_normal_mode}
use yocto_layers.Mcp251xfd.Errors.{handle_eccif}
use yocto_layers.Mcp251xfd.Errors.Recover.{Loaded, AtMost, handle_eccif-Recovers}
use yocto_layers.Mcp251xfd.Tests.{no_frame, example_priv, example_tx}

-- One bit at the address of object 5.
abbrev ecc_stat : ℕ
ecc_stat = 0x4b0_0002

abbrev value : ℕ → Reply
value val = record {
  err = none;
  val = val;
  tef_objs = [];
  rx_objs = [];
  bytes = [];
  frame = no_frame;
  state = error_active;
}

abbrev ecc_answer : List Call → Reply
ecc_answer (reg_read reg ∷ cs) = value (if reg == Regs.eccstat then ecc_stat else 0x500)
ecc_answer cs = value 0x500

abbrev ecc_env : Env
ecc_env = record {
  answer = ecc_answer;
  sanity = false;
  dlc2len = λ n. n;
  len2dlc = λ n. n;
  stack = record { txerr = 0; rxerr = 0 };
}

abbrev ecc_drv : Drv
ecc_drv = record {
  priv = record example_priv {
    tx = record example_tx {
      obj = replicate 8 (record { buf = 1 ∷ 2 ∷ []; load_len = 2; rts_len = 0 });
    };
    ecc = record { ecc_stat = ecc_stat; cnt = 1 };
  };
  calls = [];
}

handle_eccif-Recovers_example :
    Ends
      (λ _ t. Loaded ecc_drv.priv.tx [] 5 t)
      (λ _ t. AtMost ecc_drv.priv.tx [] 5 t)
      (handle_eccif ⦃env = ecc_env⦄ false ecc_drv)
unfolding get_tx_nr_by_addr
handle_eccif-Recovers_example =
    handle_eccif-Recovers 5 ecc_stat false ⦃env = ecc_env⦄ ecc_drv refl refl refl refl (omega arith)

-- The handler succeeds here.
abbrev succeeds : {A : Type 0} → Out A → Bool
succeeds o = elim o [ ok a t ↦ true | err e t ↦ false | stuck ↦ false ]

loaded_again : succeeds (handle_eccif ⦃env = ecc_env⦄ false ecc_drv) ≡ true
unfolding handle_eccif get_tx_nr_by_addr get_tx_tail tx_tail_get_from_chip chip_set_normal_mode
loaded_again = refl
