-- ===== src/Mcp251xfd/Errors/Repeat.antt =====
-- When mcp251xfd_handle_eccif loads a TX object once more.
use yocto_layers.Common.{
  ℕ, suc, ◌≡◌, ◌≢◌, refl, Bool, true, false, ◌||◌, leb, Option, none, some, List, [], ◌∷◌, arith,
  if◌then◌else◌,
}
use yocto_layers.Mcp251xfd.Regs
use yocto_layers.Mcp251xfd.Regs.{any_bit, field_get, genmask}
use yocto_layers.Mcp251xfd.Monad.{Env, Drv, modify, get, when, ◌>>=◌, ◌>>◌}
use yocto_layers.Mcp251xfd.State.{Call, einval, spi_sync_transfer, reg_read}
use yocto_layers.Mcp251xfd.Post.{Ends, choose-Ends, called-Ends}
use yocto_layers.Mcp251xfd.Does.{
  Does, Keeps, raise-Does, get-Does, when-Does, bind-Does, then-Does, modify-Does,
}
use yocto_layers.Mcp251xfd.Ring.{get_tx_nr_by_addr}
use yocto_layers.Mcp251xfd.Mode.{
  chip_set_normal_mode_nowait, chip_set_normal_mode_wait, get_normal_mode,
}
use yocto_layers.Mcp251xfd.Chip.Quiet.{mode_request-Keeps}
use yocto_layers.Mcp251xfd.Errors.{note_ecc, handle_eccif_recover, handle_eccif}

-- The messages sent to the chip over SPI, which for this handler are loads of a TX object.
abbrev pub loads : List Call → ℕ
loads [] = 0
loads (spi_sync_transfer buf xfers ∷ cs) = suc (loads cs)
loads (_ ∷ cs) = loads cs

abbrev pub Loads : ℕ → Drv → Type 0
Loads n t = loads t.calls ≡ n

-- Nothing is loaded so far, and the last error was another one.
abbrev Fresh : ℕ → ℕ → Drv → Type 0
Fresh n stat t = Loads n t × (t.priv.ecc.ecc_stat ≢ stat)

abbrev Once : ℕ → Drv → Type 0
Once n t = Loads n t × (t.priv.ecc.cnt ≡ 1)

noted :
    (n stat : ℕ) ⦃env : Env⦄ (s : Drv)
    → Fresh n stat s
    → Once n (record s { priv = note_ecc ⦃env = env⦄ true stat s.priv })
unfolding note_ecc
noted n stat s h = ground (arith, h.0, h.1)

noted_elsewhere :
    (n stat : ℕ) ⦃env : Env⦄ (s : Drv)
    → Fresh n stat s
    → Loads n (record s { priv = note_ecc ⦃env = env⦄ false stat s.priv })
noted_elsewhere n stat s h = h.0

module _ (n : ℕ) ⦃env : Env⦄ where
  normal_mode-Loads : Keeps (Loads n) chip_set_normal_mode_nowait
  unfolding chip_set_normal_mode_nowait chip_set_normal_mode_wait
  normal_mode-Loads = bind-Does get-Does λ p.
      mode_request-Keeps (Loads n) (λ reg mask val s i. i) (λ reg cond s i. i)
        (get_normal_mode p.ctrlmode) true

  -- The first of its kind: the count is one, so there is no recovery.
  counted :
      (nr : ℕ) (set_normal_mode : Bool)
      → Does {0} (Once n) (Loads n) (Loads n) (do
        q ← get
        if leb Regs.ecc_cnt_max q.ecc.cnt
            then handle_eccif_recover nr
            else when set_normal_mode chip_set_normal_mode_nowait)
  counted nr set_normal_mode = record {
    runs = λ s i.
        choose-Ends (leb Regs.ecc_cnt_max s.priv.ecc.cnt) _ _ s (λ e. absurd (ground (arith, i.1)))
          (λ _. (when-Does set_normal_mode normal_mode-Loads).runs s i.0);
  }

  answered :
      (nr : Option ℕ) (stat : ℕ) (set_normal_mode : Bool)
      → Does {0} (Fresh n stat) (Loads n) (Loads n) (elim nr [
        | none ↦ (do modify (note_ecc false stat); when set_normal_mode chip_set_normal_mode_nowait)
        | some k ↦ (do
          modify (note_ecc true stat)
          q ← get
          if leb Regs.ecc_cnt_max q.ecc.cnt
              then handle_eccif_recover k
              else when set_normal_mode chip_set_normal_mode_nowait)
      ])
  answered none stat set_normal_mode =
      then-Does (modify-Does (note_ecc false stat) (noted_elsewhere n stat))
        (when-Does set_normal_mode normal_mode-Loads)
  answered (some k) stat set_normal_mode =
      then-Does (modify-Does (note_ecc true stat) (noted n stat)) (counted k set_normal_mode)

-- An ECC error that is not the one seen last never makes the handler load a TX object again, whether it
-- succeeds or fails; the handler comes to an end for every sequence of replies.
pub handle_eccif-Loads :
    (set_normal_mode : Bool) ⦃env : Env⦄ (s : Drv)
    → s.priv.ecc.ecc_stat ≢ (env.answer (reg_read Regs.eccstat ∷ s.calls)).val
    → Ends
        (λ _ t. Loads (loads s.calls) t)
        (λ _ t. Loads (loads s.calls) t)
        (handle_eccif set_normal_mode s)
unfolding handle_eccif
handle_eccif-Loads set_normal_mode ⦃env⦄ s other =
    let stat = (env.answer (reg_read Regs.eccstat ∷ s.calls)).val in
    called-Ends _ _ s
      (λ _.
        called-Ends _ _ _
          (λ _.
            choose-Ends (any_bit stat Regs.eccstat_secif || any_bit stat Regs.eccstat_dedif) _ _ _
              (λ _.
                (answered (loads s.calls)
                    (get_tx_nr_by_addr s.priv.tx (field_get Regs.eccstat_erraddr_mask stat)) stat
                    set_normal_mode).runs
                  _ (refl, other))
              (λ _. (raise-Does einval).runs _ refl))
          (λ _ _. refl))
      (λ _ _. refl)
