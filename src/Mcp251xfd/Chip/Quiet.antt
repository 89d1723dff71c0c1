-- ===== src/Mcp251xfd/Chip/Quiet.antt =====
-- What setting up the chip does to a condition on the state, once for all such conditions.
use yocto_layers.Common.{
  ℕ, zero, suc, Bool, true, false, ◌&&◌, ◌||◌, ◌==◌, List, [], ◌∷◌, if◌then◌else◌,
}
use yocto_layers.Mcp251xfd.Monad.{Env, Drv, Out, ok, err, stuck, M, call, call_, tell}
use yocto_layers.Mcp251xfd.State.{
  Errno, Call, Priv, RxRing, etimedout, enodev, enomem, reg_read, reg_write, reg_update_bits,
  reg_poll, PollCond, ram_fill, spi_write_then_read, kzalloc, kfree,
}
use yocto_layers.Mcp251xfd.Regs
use yocto_layers.Mcp251xfd.Post.{Ends, returns, fails}
use yocto_layers.Mcp251xfd.Does.{
  Does, Keeps, Neutral, pure-Does, raise-Does, get-Does, return-Does, when-Does, modify-Does,
  if-Does, bind-Does, then-Does, attempt-Does, failing_with-Does, tell-Does, ask-Does, call-Keeps,
  call_-Keeps,
}
use yocto_layers.Mcp251xfd.Mode.{
  chip_get_mode, chip_wait_mode, chip_set_mode_wait, chip_set_mode, chip_set_normal_mode_wait,
  chip_set_normal_mode, get_normal_mode,
}
use yocto_layers.Mcp251xfd.Reset.{
  clock_ready, chip_clock_enable, chip_softreset_do, chip_softreset_check, softreset_round,
  softreset_loop, chip_softreset, chip_clock_init, is_etimedout, osc_invalid,
}
use yocto_layers.Mcp251xfd.Configure.{
  set_bittiming, chip_rx_int_enable, chip_rx_int_disable, chip_rx_fifos_init, chip_rx_fifo_init_one,
  chip_rx_filter_init_one, chip_fifo_init, chip_ecc_init, chip_interrupts_enable,
  chip_interrupts_disable,
}

-- What is said to the chip.
pub data Word : Call → Type 0 where
  reads : {reg : ℕ} → Word (reg_read reg)
  writes : {reg val : ℕ} → Word (reg_write reg val)
  updates : {reg mask val : ℕ} → Word (reg_update_bits reg mask val)
  polls : {reg : ℕ} {cond : PollCond} → Word (reg_poll reg cond)
  fills : {reg size : ℕ} → Word (ram_fill reg size)
  resets : {cmd : ℕ} → Word (spi_write_then_read cmd)

-- The bookkeeping of ECC errors starts anew.
abbrev pub forget_ecc : Priv → Priv
forget_ecc p = record p { ecc = record (p.ecc) { ecc_stat = 0 } }

-- A request for a mode is one update and perhaps one poll.
module _ (I : Drv → Type 0)
    (updating : (reg mask val : ℕ) → Neutral I (reg_update_bits reg mask val))
    (polling : (reg : ℕ) (cond : PollCond) → Neutral I (reg_poll reg cond)) ⦃env : Env⦄ where
  pub mode_request-Keeps : (mode : ℕ) (nowait : Bool) → Keeps I (chip_set_mode_wait mode nowait)
  unfolding chip_set_mode_wait chip_wait_mode
  mode_request-Keeps mode nowait = bind-Does get-Does λ p.
      if-Does (p.dv_noslp && mode == Regs.con_mode_sleep) (pure-Does tt) (
        bind-Does (call-Keeps _ (updating _ _ _)) λ r.
          if-Does (mode == Regs.con_mode_sleep || nowait) (pure-Does tt)
            (call_-Keeps _ (polling _ _)))

module _ (I : Drv → Type 0) (quiet : (c : Call) → Word c → Neutral I c) ⦃env : Env⦄ where
  abbrev Calm {ℓ} : {A : Type ℓ} → M A → Type ℓ
  Calm m = Keeps I m

  says : {c : Call} → Word c → Keeps I (call c)
  says w = call-Keeps _ (quiet _ w)

  says_ : {c : Call} → Word c → Keeps I (call_ c)
  says_ w = call_-Keeps _ (quiet _ w)

  pub get_mode-Keeps : Calm chip_get_mode
  unfolding chip_get_mode
  get_mode-Keeps = bind-Does (says reads) (λ r. pure-Does _)

  pub set_mode_wait-Keeps : (mode : ℕ) (nowait : Bool) → Calm (chip_set_mode_wait mode nowait)
  set_mode_wait-Keeps =
      mode_request-Keeps I (λ reg mask val. quiet _ updates) (λ reg cond. quiet _ polls)

  pub set_mode-Keeps : (mode : ℕ) → Calm (chip_set_mode mode)
  unfolding chip_set_mode
  set_mode-Keeps mode = set_mode_wait-Keeps mode false

  pub normal_mode-Keeps : Calm chip_set_normal_mode
  unfolding chip_set_normal_mode chip_set_normal_mode_wait
  normal_mode-Keeps =
      bind-Does get-Does (λ p. set_mode_wait-Keeps (get_normal_mode p.ctrlmode) false)

  pub clock_enable-Keeps : Calm chip_clock_enable
  unfolding chip_clock_enable clock_ready
  clock_enable-Keeps = bind-Does (says writes) λ _.
      bind-Does (ask-Does _ (quiet _ polls))
        λ r. if-Does (osc_invalid r.val) (raise-Does enodev) (return-Does r.err)

  pub round-Keeps : Calm softreset_round
  unfolding softreset_round chip_softreset_do chip_softreset_check
  round-Keeps =
      then-Does
        (then-Does clock_enable-Keeps
          (then-Does (set_mode-Keeps Regs.con_mode_config) (says_ resets)))
        (bind-Does get_mode-Keeps λ mode.
          if-Does (mode == Regs.con_mode_config)
            (bind-Does (says reads) λ r. if-Does _ (pure-Does tt) (raise-Does _)) (raise-Does _))

  again :
      (timeout : Bool) (e : Errno) (t : Drv) (rest : M (Unit {0}))
      → I t
      → Calm rest
      → Ends (λ _ u. I u) (λ _ u. I u) (elim timeout [ true ↦ rest t | false ↦ err e t ])
  again true e t rest i k = k.runs t i
  again false e t rest i k = fails i

  looped :
      {o : Out (Unit {0})} (rest : Errno → M (Unit {0}))
      → Ends (λ _ t. I t) (λ _ t. I t) o
      → ((e : Errno) → Calm (rest e))
      → Ends {0}
          (λ _ t. I t)
          (λ _ t. I t)
          (elim o [
            | ok _ t ↦ ok tt t
            | err e t ↦ elim (is_etimedout e) [ true ↦ rest e t | false ↦ err e t ]
            | stuck ↦ stuck
          ])
  looped rest (returns i) k = returns i
  looped rest (fails {e} {t} i) k = again (is_etimedout e) e t (rest e) i (k e)

  pub loop-Keeps : (left : ℕ) (last : Errno) → Calm (softreset_loop left last)
  unfolding softreset_loop
  loop-Keeps zero last = record { runs = λ s i. fails i }
  loop-Keeps (suc left) last = record {
    runs = λ s i. looped (softreset_loop left) (round-Keeps.runs s i) (λ e. loop-Keeps left e);
  }

  pub softreset-Keeps : Calm chip_softreset
  unfolding chip_softreset
  softreset-Keeps = loop-Keeps Regs.softreset_retries_max etimedout

  pub clock_init-Keeps : Calm chip_clock_init
  unfolding chip_clock_init
  clock_init-Keeps = bind-Does get-Does λ p. bind-Does (says writes) λ _. says_ writes

  pub bittiming-Keeps : Calm set_bittiming
  unfolding set_bittiming
  bittiming-Keeps = bind-Does get-Does λ p. bind-Does (says writes) λ _.
      bind-Does (says writes)
        λ _. when-Does p.ctrlmode.fd (bind-Does (says writes) λ _. says_ writes)

  pub rx_int_enable-Keeps : Calm chip_rx_int_enable
  unfolding chip_rx_int_enable
  rx_int_enable-Keeps =
      bind-Does get-Does
        λ p. when-Does p.rx_int (then-Does (tell-Does _ (quiet _ reads)) (says_ writes))

  pub rx_int_disable-Keeps : Calm chip_rx_int_disable
  unfolding chip_rx_int_disable
  rx_int_disable-Keeps = bind-Does get-Does λ p. when-Does p.rx_int (says_ writes)

  pub rx_fifos-Keeps : (rings : List RxRing) → Calm (chip_rx_fifos_init rings)
  unfolding chip_rx_fifos_init chip_rx_fifo_init_one chip_rx_filter_init_one
  rx_fifos-Keeps [] = pure-Does tt
  rx_fifos-Keeps (r ∷ rs) =
      then-Does (then-Does (bind-Does get-Does λ p. says_ writes) (says_ updates))
        (rx_fifos-Keeps rs)

  pub fifo_init-Keeps : Calm chip_fifo_init
  unfolding chip_fifo_init
  fifo_init-Keeps =
      bind-Does get-Does
        λ p. bind-Does (says writes) λ _. bind-Does (says writes) λ _. rx_fifos-Keeps p.rx

  -- `J` holds while the driver has the memory from which the RAM is filled.
  pub ecc_init-Keeps :
      (J : Drv → Type 0)
      → ((s : Drv) → I s → I (record s { priv = forget_ecc s.priv }))
      → Does I J I (call (kzalloc Regs.ram_size))
      → Neutral J (ram_fill Regs.ram_start Regs.ram_size)
      → Does J I I (tell kfree)
      → Calm chip_ecc_init
  unfolding chip_ecc_init
  ecc_init-Keeps J kept taking filling freeing = then-Does (modify-Does forget_ecc kept) (
      bind-Does get-Does λ p.
        bind-Does
          (says (
            updates {reg = Regs.ecccon} {mask = Regs.ecccon_eccen}
              {val = if p.devtype_data.quirks.ecc then Regs.ecccon_eccen else 0}))
          λ _. bind-Does (failing_with-Does enomem taking) λ _.
            bind-Does (attempt-Does (call-Keeps _ filling)) λ e. then-Does freeing (return-Does e))

  pub interrupts_enable-Keeps : Calm chip_interrupts_enable
  unfolding chip_interrupts_enable
  interrupts_enable-Keeps =
      bind-Does get-Does
        λ p. bind-Does (says writes) λ _. bind-Does (says updates) λ _. says_ writes

  pub interrupts_disable-Keeps : Calm chip_interrupts_disable
  unfolding chip_interrupts_disable
  interrupts_disable-Keeps = bind-Does (says writes) λ _. bind-Does (says updates) λ _. says_ writes
