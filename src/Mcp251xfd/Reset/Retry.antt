-- ===== src/Mcp251xfd/Reset/Retry.antt =====
-- mcp251xfd_chip_softreset and its retries.
use yocto_layers.Common.{
  ℕ, zero, suc, ◌≡◌, refl, sym, ap, ◌∙◌, Bool, true, false, Option, none, some, ◌∷◌, drop, ◌||◌,
  ◌&&◌, ◌==◌, ==_iff, bit_or,
}
use yocto_layers.Mcp251xfd.Monad.{Env, Drv, Out, ok, err, stuck, return}
use yocto_layers.Mcp251xfd.Regs
use yocto_layers.Mcp251xfd.Regs.{field_get}
use yocto_layers.Mcp251xfd.State.{Errno, etimedout, Reply, reg_write, reg_poll, reg_read, masked}
use yocto_layers.Mcp251xfd.Post.{
  Ends, returns, fails, bind-Ends, then-Ends, called-Ends, choose-Ends,
}
use yocto_layers.Mcp251xfd.Mode.{chip_get_mode, chip_set_mode, chip_set_mode_wait, chip_wait_mode}
use yocto_layers.Mcp251xfd.Reset.{
  osc_clkodiv, osc_invalid, is_etimedout, clock_ready, chip_clock_enable, chip_softreset_do,
  chip_softreset_check, softreset_round, softreset_loop, chip_softreset,
}

abbrev pub AnyResult : {A : Type 0} → A → Drv → Type 0
AnyResult a t = Unit {0}

abbrev pub AnyError : Errno → Drv → Type 0
AnyError e t = Unit {0}

-- The last two calls read CON, which shows the configuration mode, and OSC, which shows its reset
-- settings.
abbrev pub Confirmed : ⦃env : Env⦄ → Drv → Type 0
Confirmed ⦃env⦄ t =
    (t.calls ≡ reg_read Regs.osc ∷ reg_read Regs.con ∷ drop 2 t.calls)
    × (field_get Regs.con_opmod_mask (env.answer (drop 1 t.calls)).val ≡ Regs.con_mode_config)
    × ((env.answer t.calls).val ≡ bit_or Regs.osc_oscrdy osc_clkodiv)

return-Ends : (x : Option Errno) (s : Drv) → Ends AnyResult AnyError (return x s)
return-Ends none s = returns tt
return-Ends (some e) s = fails tt

module _ ⦃env : Env⦄ where
  clock_ready-Ends : (r : Reply) (s : Drv) → Ends AnyResult AnyError (clock_ready r s)
  unfolding clock_ready
  clock_ready-Ends r s =
      choose-Ends (osc_invalid r.val) _ _ s (λ _. fails tt) (λ _. return-Ends r.err s)

  clock_enable-Ends : (s : Drv) → Ends AnyResult AnyError (chip_clock_enable s)
  unfolding chip_clock_enable
  clock_enable-Ends s =
      let ready =
        reg_poll Regs.osc (masked (bit_or Regs.osc_oscrdy Regs.osc_pllrdy) Regs.osc_oscrdy) in
      let sent = ready ∷ reg_write Regs.osc osc_clkodiv ∷ s.calls in
      called-Ends _ _ s (λ _. clock_ready-Ends (env.answer sent) (record s { calls = sent }))
        (λ _ _. tt)

  wait_mode-Ends :
      (mode : ℕ) (nowait : Bool) (s : Drv) → Ends AnyResult AnyError (chip_wait_mode mode nowait s)
  unfolding chip_wait_mode
  wait_mode-Ends mode nowait s =
      choose-Ends (mode == Regs.con_mode_sleep || nowait) _ _ s (λ _. returns tt)
        (λ _. called-Ends _ _ s (λ _. returns tt) (λ _ _. tt))

  -- Setting a mode ends too.
  pub set_mode-Ends : (mode : ℕ) (s : Drv) → Ends AnyResult AnyError (chip_set_mode mode s)
  unfolding chip_set_mode chip_set_mode_wait
  set_mode-Ends mode s =
      choose-Ends (s.priv.dv_noslp && mode == Regs.con_mode_sleep) _ _ s (λ _. returns tt)
        (λ _. called-Ends _ _ s (λ _. wait_mode-Ends mode false _) (λ _ _. tt))

  softreset_do-Ends : (s : Drv) → Ends AnyResult AnyError (chip_softreset_do s)
  unfolding chip_softreset_do
  softreset_do-Ends s = then-Ends chip_clock_enable _ s (clock_enable-Ends s) (λ _ t _.
      then-Ends (chip_set_mode Regs.con_mode_config) _ t (set_mode-Ends Regs.con_mode_config t)
        (λ _ u _. called-Ends _ _ u (λ _. returns tt) (λ _ _. tt)))

  softreset_check-Ends : (s : Drv) → Ends (λ _ t. Confirmed t) AnyError (chip_softreset_check s)
  unfolding chip_softreset_check chip_get_mode
  softreset_check-Ends s =
      bind-Ends chip_get_mode _ s
        (called-Ends
          {R = λ mode t.
            (mode ≡ field_get Regs.con_opmod_mask (env.answer t.calls).val)
            × (t.calls ≡ reg_read Regs.con ∷ drop 1 t.calls)}
          _ _ s (λ _. returns (refl, refl)) (λ _ _. tt))
        (λ mode t (e, con).
          let osc = (env.answer (reg_read Regs.osc ∷ t.calls)).val in
          choose-Ends (mode == Regs.con_mode_config) _ _ t
            (λ c.
              called-Ends _ _ t
                (λ _.
                  choose-Ends (osc == bit_or Regs.osc_oscrdy osc_clkodiv) _ _ _
                    (λ o. returns (
                      ap (λ cs. reg_read Regs.osc ∷ cs) con,
                      sym e ∙ (==_iff _ _).0 c,
                      (==_iff _ _).0 o,
                    ))
                    (λ _. fails tt))
                (λ _ _. tt))
            (λ _. fails tt))

  softreset_round-Ends : (s : Drv) → Ends (λ _ t. Confirmed t) AnyError (softreset_round s)
  unfolding softreset_round
  softreset_round-Ends s =
      then-Ends chip_softreset_do _ s (softreset_do-Ends s) (λ _ t _. softreset_check-Ends t)

  abbrev IsConfirmed : Out (Unit {0}) → Type 0
  IsConfirmed o = Ends (λ _ t. Confirmed t) AnyError o

  retry :
      (again : Bool) (left : ℕ) (e : Errno) (t : Drv)
      → Ends (λ _ u. Confirmed u) AnyError (softreset_loop left e t)
      → IsConfirmed (elim again [ true ↦ softreset_loop left e t | false ↦ err e t ])
  retry true left e t h = h
  retry false left e t h = fails tt

  next_round :
      (left : ℕ) {o : Out (Unit {0})}
      → Ends (λ _ t. Confirmed t) AnyError o
      → ((e : Errno) (t : Drv) → Ends (λ _ t. Confirmed t) AnyError (softreset_loop left e t))
      → IsConfirmed (elim o [
        | ok _ t ↦ ok tt t
        | err e t ↦ elim (is_etimedout e) [ true ↦ softreset_loop left e t | false ↦ err e t ]
        | stuck ↦ stuck
      ])
  next_round left (returns h) k = returns h
  next_round left (fails {e = e} {t = t} h) k = retry (is_etimedout e) left e t (k e t)

  softreset_loop-Ends :
      (left : ℕ) (last : Errno) (s : Drv)
      → Ends (λ _ t. Confirmed t) AnyError (softreset_loop left last s)
  unfolding softreset_loop
  softreset_loop-Ends zero last s = fails tt
  softreset_loop-Ends (suc left) last s =
      next_round left (softreset_round-Ends s) (softreset_loop-Ends left)

  -- Whatever the chip answers, the soft reset comes to an end. Where it reports success, the last two
  -- calls read CON, which showed the configuration mode, and OSC, which showed its value after a reset.
  pub chip_softreset-Confirmed : (s : Drv) → Ends (λ _ t. Confirmed t) AnyError (chip_softreset s)
  unfolding chip_softreset
  chip_softreset-Confirmed s = softreset_loop-Ends Regs.softreset_retries_max etimedout s
