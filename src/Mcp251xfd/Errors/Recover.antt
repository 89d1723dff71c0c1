-- ===== src/Mcp251xfd/Errors/Recover.antt =====
-- What mcp251xfd_handle_eccif loads once more when an ECC error comes again.
use yocto_layers.Common.{
  ℕ, ◌+◌, ◌≤◌, ◌≡◌, refl, sym, ◌∙◌, ap₂, ap, ◌⊎◌, inl, inr, Bool, true, false, not, ◌==◌, ==_iff,
  ◌&&◌, ◌||◌, leb, Option, none, some, List, [], ◌∷◌, get_or, arith, if◌then◌else◌, sub32, u8,
  bit_and,
}
use yocto_layers.Mcp251xfd.Regs
use yocto_layers.Mcp251xfd.Regs.{any_bit, field_get}
use yocto_layers.Mcp251xfd.Monad.{Env, Drv, modify, get, when, ◌>>=◌, ◌>>◌}
use yocto_layers.Mcp251xfd.State.{Priv, Call, Xfer, TxRing, spi_sync_transfer, reg_read}
use yocto_layers.Mcp251xfd.Post.{Ends, fails, choose-Ends, called-Ends}
use yocto_layers.Mcp251xfd.Does.{
  Does, Keeps, pure-Does, get-Does, bind-Does, then-Does, modify-Does, call-Keeps, weaken-Does,
  read-Does, settle-Does, if-Does,
}
use yocto_layers.Mcp251xfd.Ring.{get_tx_nr_by_addr, get_tx_tail}
use yocto_layers.Mcp251xfd.Mode.{
  chip_set_normal_mode, chip_set_normal_mode_wait, chip_set_normal_mode_nowait, get_normal_mode,
}
use yocto_layers.Mcp251xfd.Chip.Quiet.{mode_request-Keeps}
use yocto_layers.Mcp251xfd.Tef.{tx_tail_get_from_chip}
use yocto_layers.Mcp251xfd.Errors.{is_2518, no_tx_obj, note_ecc, handle_eccif_recover, handle_eccif}

-- The messages sent over SPI, the last one first.
abbrev pub sent : List Call → List (List ℕ × List Xfer)
sent [] = []
sent (spi_sync_transfer buf xfers ∷ cs) = (buf, xfers) ∷ sent cs
sent (_ ∷ cs) = sent cs

-- The message that loads the object with this number.
abbrev pub load : TxRing → ℕ → List ℕ × List Xfer
load tx nr =
    let obj = get_or tx.obj nr no_tx_obj in
    (obj.buf, record { len = obj.load_len; cs_change = true } ∷ [])

module _ (tx : TxRing) (before : List (List ℕ × List Xfer)) where
  abbrev Before : Drv → Type 0
  Before t = (t.priv.tx ≡ tx) × (sent t.calls ≡ before)

  -- The error `stat` is the one seen last, and the limit is reached.
  abbrev Again : ℕ → Drv → Type 0
  Again stat t = Before t × ((t.priv.ecc.ecc_stat ≡ stat) × (Regs.ecc_cnt_max ≤ t.priv.ecc.cnt + 1))

  abbrev Reached : Drv → Type 0
  Reached t = Before t × (Regs.ecc_cnt_max ≤ t.priv.ecc.cnt)

  abbrev pub Loaded : ℕ → Drv → Type 0
  Loaded nr t = sent t.calls ≡ load tx nr ∷ before

  abbrev pub AtMost : ℕ → Drv → Type 0
  AtMost nr t = (sent t.calls ≡ before) ⊎ Loaded nr t

  noted :
      (stat : ℕ) ⦃env : Env⦄ (s : Drv)
      → Again stat s
      → Reached (record s { priv = note_ecc ⦃env = env⦄ true stat s.priv })
  unfolding note_ecc
  noted stat s (h, (seen, many)) =
      let e : (s.priv.ecc.ecc_stat == stat) ≡ true = (==_iff _ _).1 seen in rw e (h, many)

  module _ (nr : ℕ) ⦃env : Env⦄ where
    normal_mode-Loaded : Keeps (Loaded nr) chip_set_normal_mode
    unfolding chip_set_normal_mode chip_set_normal_mode_wait
    normal_mode-Loaded = bind-Does get-Does λ p.
        mode_request-Keeps (Loaded nr) (λ reg mask val s i. i) (λ reg cond s i. i)
          (get_normal_mode p.ctrlmode) false

    tail-Before : Does Before Before (AtMost nr) tx_tail_get_from_chip
    unfolding tx_tail_get_from_chip
    tail-Before =
        weaken-Does {I = Before} (bind-Does (call-Keeps _ (λ s i. i)) λ r. pure-Does _) (λ s i. i)
          (λ s i. i) (λ s i. inl i.1)

    loads_it :
        (p : Priv) (s : Drv)
        → Before s × (s.priv ≡ p)
        → (load p.tx nr ∷ sent s.calls) ≡ load tx nr ∷ before
    loads_it p s ((e, m), q) =
        ap₂ (λ (t : TxRing) l. load t nr ∷ l) (sym (ap (λ (q : Priv). q.tx) q) ∙ e) m

    recover-Loaded : Does Before (Loaded nr) (AtMost nr) (handle_eccif_recover nr)
    unfolding handle_eccif_recover
    recover-Loaded = bind-Does tail-Before λ chip. read-Does _ λ p.
        let offset = u8 (bit_and (sub32 nr chip) (sub32 p.tx.obj_num 1)) in
        let near = offset == 0 || (offset == 1 && is_2518 p.devtype_data.model) in
        if-Does (not (chip == get_tx_tail p.tx) || not near)
          (record { runs = λ s i. fails (inl i.0.1) })
          (bind-Does
            (settle-Does
              (spi_sync_transfer (get_or p.tx.obj nr no_tx_obj).buf
                (record { len = (get_or p.tx.obj nr no_tx_obj).load_len; cs_change = true } ∷ []))
              (λ s i _. loads_it p s i) (λ s i _ _. inr (loads_it p s i)))
            λ _. weaken-Does normal_mode-Loaded (λ s i. i) (λ s i. i) (λ s. inr))

    -- The limit is reached, so the object is loaded.
    counted :
        (set_normal_mode : Bool)
        → Does {0} Reached (Loaded nr) (AtMost nr) (do
          q ← get
          if leb Regs.ecc_cnt_max q.ecc.cnt
              then handle_eccif_recover nr
              else when set_normal_mode chip_set_normal_mode_nowait)
    counted set_normal_mode = record {
      runs = λ s i.
          choose-Ends (leb Regs.ecc_cnt_max s.priv.ecc.cnt) _ _ s (λ _. recover-Loaded.runs s i.0)
            (λ e. absurd (ground (arith, e, i.1)));
    }

    answered :
        (found : Option ℕ) (stat : ℕ) (set_normal_mode : Bool)
        → found ≡ some nr
        → Does {0} (Again stat) (Loaded nr) (AtMost nr) (elim found [
          | none ↦ (do
            modify (note_ecc false stat)
            when set_normal_mode chip_set_normal_mode_nowait)
          | some k ↦ (do
            modify (note_ecc true stat)
            q ← get
            if leb Regs.ecc_cnt_max q.ecc.cnt
                then handle_eccif_recover k
                else when set_normal_mode chip_set_normal_mode_nowait)
        ])
    answered none stat set_normal_mode e = cc
    answered (some k) stat set_normal_mode e =
        let same : k ≡ nr = cc in
        rw same
          (then-Does (modify-Does (note_ecc true stat) (noted stat)) (counted set_normal_mode))

-- An ECC error in a TX object, of one or of two bits, that is the one seen last, and with which the limit
-- of repeated errors is reached: the handler comes to an end for every sequence of replies. When it
-- succeeds it has sent one message, which loads the object that the chip's error address names; when it
-- fails it has sent at most this message.
pub handle_eccif-Recovers :
    (nr stat : ℕ) (set_normal_mode : Bool) ⦃env : Env⦄ (s : Drv)
    → (env.answer (reg_read Regs.eccstat ∷ s.calls)).val ≡ stat
    → (any_bit stat Regs.eccstat_secif || any_bit stat Regs.eccstat_dedif) ≡ true
    → get_tx_nr_by_addr s.priv.tx (field_get Regs.eccstat_erraddr_mask stat) ≡ some nr
    → s.priv.ecc.ecc_stat ≡ stat
    → Regs.ecc_cnt_max ≤ s.priv.ecc.cnt + 1
    → Ends
        (λ _ t. Loaded s.priv.tx (sent s.calls) nr t)
        (λ _ t. AtMost s.priv.tx (sent s.calls) nr t)
        (handle_eccif set_normal_mode s)
unfolding handle_eccif
handle_eccif-Recovers nr stat set_normal_mode ⦃env⦄ s shown bits named seen many =
    let tx = s.priv.tx in
    let before = sent s.calls in
    let read = (env.answer (reg_read Regs.eccstat ∷ s.calls)).val in
    called-Ends _ _ s
      (λ _.
        called-Ends _ _ _
          (λ _.
            choose-Ends (any_bit read Regs.eccstat_secif || any_bit read Regs.eccstat_dedif) _ _ _
              (λ _.
                (answered tx before nr
                    (get_tx_nr_by_addr s.priv.tx (field_get Regs.eccstat_erraddr_mask read)) read
                    set_normal_mode (rw shown named)).runs
                  _ ((refl, refl), (seen ∙ sym shown, many)))
              (λ e.
                let none_set : true ≡ false =
                  sym bits
                  ∙ sym (
                      ap (λ (t : ℕ). any_bit t Regs.eccstat_secif || any_bit t Regs.eccstat_dedif)
                        shown)
                  ∙ e in
                cc))
          (λ _ _. inl refl))
      (λ _ _. inl refl)
