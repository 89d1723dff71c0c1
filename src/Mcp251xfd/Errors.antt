-- ===== src/Mcp251xfd/Errors.antt =====
-- The interrupt sources other than RX and TEF: overflow, bus errors, state changes, mode changes,
-- system errors, ECC errors and SPI checksum errors.
pub mod Counters
pub mod States
pub mod Repeat
pub mod Recover
use yocto_layers.Common.{
  ℕ, zero, suc, ◌+◌, ◌-◌, ◌*◌, ◌/◌, ◌%◌, ◌^◌, ◌≤◌, ◌<◌, min, max, bit_and, bit_or, bit_xor, ◌≡◌,
  refl, sym, ap, ap₂, ◌∙◌, ◌≢◌, ◌↔◌, ◌⊎◌, inl, inr, Bool, true, false, not, ◌&&◌, ◌||◌, Option,
  none, some, List, [], ◌∷◌, ◌++◌, map, length, get_elem?, get_or, set, take, drop, replicate, ltb,
  leb, ◌==◌, if◌then◌else◌, Bool-cases, u8, u16, u32, sub32, arith,
}
use yocto_layers.Mcp251xfd.Monad.{
  Env, Drv, Out, ok, err, stuck, M, pure, raise, ◌>>=◌, ◌>>◌, attempt, on_error, failing_with,
  return, get, modify, when, ask, call, call_, tell,
}
use yocto_layers.Mcp251xfd.State.{
  einval, CanState, error_active, error_warning, error_passive, bus_off, state_rank, Model,
  mcp2518fd, CanFrame, BerrCounter, RxRing, TxObj, TxRing, Stats, Priv, reg_read, reg_write,
  reg_update_bits, spi_sync_transfer, alloc_can_err_skb, can_change_state,
}
use yocto_layers.Mcp251xfd.State
use yocto_layers.Mcp251xfd.CanAbi
use yocto_layers.Mcp251xfd.Regs
use yocto_layers.Mcp251xfd.Regs.{field_get, genmask, any_bit}
use yocto_layers.Mcp251xfd.Ring.{get_tx_nr_by_addr, get_tx_tail}
use yocto_layers.Mcp251xfd.Mode.{
  get_normal_mode, chip_get_mode, chip_set_normal_mode, chip_set_normal_mode_nowait,
}
use yocto_layers.Mcp251xfd.Chip.{is_bus_off, chip_stop, read_berr_counter, get_berr_counter}
use yocto_layers.Mcp251xfd.Tef.{tx_tail_get_from_chip}
use yocto_layers.Mcp251xfd.Rx.{queue_sorted}

-- `~x` on u32
abbrev pub complement32 : ℕ → ℕ
complement32 x = 2 ^ 32 - 1 - x

-- `cf->data[i] |= v` and `cf->data[i] = v` on a u8
abbrev pub or_byte : ℕ → ℕ → CanFrame → CanFrame
or_byte i v cf = record cf { payload = set cf.payload i (bit_or (get_or cf.payload i 0) v) }

abbrev pub put_byte : ℕ → ℕ → CanFrame → CanFrame
put_byte i v cf = record cf { payload = set cf.payload i (u8 v) }

abbrev pub or_id : ℕ → CanFrame → CanFrame
or_id v cf = record cf { can_id = bit_or cf.can_id v }

abbrev pub on_stats : (Stats → Stats) → Priv → Priv
on_stats f p = record p { stats = f p.stats }

abbrev pub add_rx_error : Stats → Stats
add_rx_error st = record st { rx_errors = st.rx_errors + 1 }

abbrev pub add_tx_error : Stats → Stats
add_tx_error st = record st { tx_errors = st.tx_errors + 1 }

-- What a bus error does to the statistics and to the error frame, if there is one.
pub record Report : Type 0 where
  pub stats : Stats
  pub cf : CanFrame

abbrev pub if_bit : Bool → (Report → Report) → Report → Report
if_bit true f r = f r
if_bit false f r = r

-- The six tests on BDIAG1, in order; each may move one counter and mark the frame.
unfoldable pub ivmif_report : ℕ → Report → Report
ivmif_report bdiag1 r0 =
    let crc = any_bit bdiag1 (bit_or Regs.bdiag1_dcrcerr Regs.bdiag1_ncrcerr) in
    let stuff = any_bit bdiag1 (bit_or Regs.bdiag1_dstuferr Regs.bdiag1_nstuferr) in
    let form = any_bit bdiag1 (bit_or Regs.bdiag1_dformerr Regs.bdiag1_nformerr) in
    let nack = any_bit bdiag1 Regs.bdiag1_nackerr in
    let bit1 = any_bit bdiag1 (bit_or Regs.bdiag1_dbit1err Regs.bdiag1_nbit1err) in
    let bit0 = any_bit bdiag1 (bit_or Regs.bdiag1_dbit0err Regs.bdiag1_nbit0err) in
    let r1 =
      if_bit crc
        (λ r. record {
          stats = add_rx_error r.stats;
          cf = or_byte 3 CanAbi.err_prot_loc_crc_seq r.cf;
        })
        r0 in
    let r2 =
      if_bit stuff
        (λ r. record { stats = add_rx_error r.stats; cf = or_byte 2 CanAbi.err_prot_stuff r.cf })
        r1 in
    let r3 =
      if_bit form
        (λ r. record { stats = add_rx_error r.stats; cf = or_byte 2 CanAbi.err_prot_form r.cf })
        r2 in
    let r4 =
      if_bit nack
        (λ r. record {
          stats = add_tx_error r.stats;
          cf = or_byte 2 CanAbi.err_prot_tx (or_id CanAbi.err_ack r.cf);
        })
        r3 in
    let r5 =
      if_bit bit1
        (λ r. record {
          stats = add_tx_error r.stats;
          cf = or_byte 2 (bit_or CanAbi.err_prot_tx CanAbi.err_prot_bit1) r.cf;
        })
        r4 in
    if_bit bit0
      (λ r. record {
        stats = add_tx_error r.stats;
        cf = or_byte 2 (bit_or CanAbi.err_prot_tx CanAbi.err_prot_bit0) r.cf;
      })
      r5

-- The states that TREC shows for the two directions.
unfoldable pub trec_tx_state : ℕ → CanState
trec_tx_state trec =
    if any_bit trec Regs.trec_txbo
    then bus_off
    else if any_bit trec Regs.trec_txbp
    then error_passive
    else if any_bit trec Regs.trec_txwarn
    then error_warning
    else error_active

unfoldable pub trec_rx_state : ℕ → CanState
trec_rx_state trec =
    if any_bit trec Regs.trec_rxbp
    then error_passive
    else if any_bit trec Regs.trec_rxwarn
    then error_warning
    else error_active

abbrev pub max_state : CanState → CanState → CanState
max_state a b = if ltb (state_rank a) (state_rank b) then b else a

unfoldable pub is_2518 : Model → Bool
is_2518 mcp2518fd = true
is_2518 _ = false

abbrev pub no_tx_obj : TxObj
no_tx_obj = record { buf = []; load_len = 0; rts_len = 0 }

-- A read that gave nothing leaves priv->bec as it was.
abbrev pub save_bec : Option BerrCounter → Priv → Priv
save_bec none p = p
save_bec (some bec) p = record p { bec = bec }

module _ ⦃env : Env⦄ where
  -- mcp251xfd_alloc_can_err_skb: the frame and the timestamp, unless either cannot be had.
  unfoldable pub alloc_err_skb : M (Option (CanFrame × ℕ))
  alloc_err_skb s =
      let both = do
        ts ← call (reg_read Regs.tbc)
        skb ← call alloc_can_err_skb
        pure (some (skb.frame, ts.val))
      in elim (both s) [ ok r t ↦ ok r t | err e t ↦ ok none t | stuck ↦ stuck ]

  -- The loop over the RX rings: clear the overflow flag of each ring that has it.
  unfoldable pub clear_overflows : ℕ → List RxRing → M (Unit {0})
  clear_overflows rxovif [] s = pure tt s
  clear_overflows rxovif (ring ∷ rings) s =
      (when (any_bit rxovif (2 ^ ring.fifo_nr))
            (call_ (reg_update_bits (Regs.fifosta ring.fifo_nr) Regs.fifosta_rxovif 0x0))
          >> clear_overflows rxovif rings)
        s

  unfoldable pub handle_rxovif : M (Unit {0})
  unfolding clear_overflows alloc_err_skb
  handle_rxovif = do
    modify (
        on_stats (λ st. record st {
          rx_over_errors = st.rx_over_errors + 1;
          rx_errors = st.rx_errors + 1;
        }))
    r ← call (reg_read Regs.rxovif)
    p ← get
    clear_overflows r.val p.rx
    skb ← alloc_err_skb
    elim skb [
      | none ↦ pure tt
      | some (cf, ts) ↦
          let marked = or_id CanAbi.err_crtl cf in
          queue_sorted
            (record marked { payload = set marked.payload 1 CanAbi.err_crtl_rx_overflow }) ts
    ]

  unfoldable pub handle_txatif : M (Unit {0})
  handle_txatif = pure tt

  unfoldable pub handle_ivmif : M (Unit {0})
  unfolding ivmif_report
  handle_ivmif = do
    ts ← call (reg_read Regs.tbc)
    diag ← call (reg_read Regs.bdiag1)
    call (reg_write Regs.bdiag1 0x0)
    modify (on_stats (λ st. record st { bus_error = st.bus_error + 1 }))
    skb ← ask alloc_can_err_skb
    p ← get
    let cf = or_id (bit_or CanAbi.err_prot CanAbi.err_buserror) skb.frame
    let report = ivmif_report diag.val (record { stats = p.stats; cf = cf })
    modify (on_stats (λ _. report.stats))
    elim (skb.err) [ none ↦ queue_sorted report.cf ts.val | some _ ↦ pure tt ]

  -- In bus off the counters are saved and the chip is stopped.
  unfoldable pub enter_bus_off : M (Unit {0})
  enter_bus_off = do
    saved ← read_berr_counter
    modify (save_bec saved)
    attempt (chip_stop bus_off)
    tell State.can_bus_off

  -- The error frame carries the counters, except in bus off.
  unfoldable pub report_state : CanState → CanFrame → ℕ → M (Unit {0})
  report_state new_state cf ts = if is_bus_off new_state then queue_sorted cf ts else (do
    got ← get_berr_counter
    let bec : BerrCounter = elim got [ none ↦ env.stack | some b ↦ b ]
    queue_sorted (put_byte 7 bec.rxerr (put_byte 6 bec.txerr cf)) ts)

  unfoldable pub handle_cerrif : M (Unit {0})
  unfolding trec_tx_state trec_rx_state alloc_err_skb enter_bus_off report_state is_bus_off
  handle_cerrif = do
    r ← call (reg_read Regs.trec)
    let tx_state = trec_tx_state r.val
    let rx_state = trec_rx_state r.val
    let new_state = max_state tx_state rx_state
    p ← get
    if state_rank new_state == state_rank p.can_state then pure tt else (do
      skb ← alloc_err_skb
      let cf : Option CanFrame = elim skb [ none ↦ none | some (cf, ts) ↦ some cf ]
      changed ← ask (can_change_state cf tx_state rx_state)
      modify (λ q. record q { can_state = changed.state })
      when (is_bus_off new_state) enter_bus_off
      elim skb [ none ↦ pure tt | some (cf, ts) ↦ report_state new_state changed.frame ts ])

  -- The result is the flag that the caller passes on to mcp251xfd_handle_eccif.
  unfoldable pub handle_modif : M Bool
  unfolding get_normal_mode
  handle_modif = do
    p ← get
    mode ← chip_get_mode
    if mode == get_normal_mode p.ctrlmode
        then pure false
        else if any_bit p.intf Regs.int_eccif
        then pure true
        else (do chip_set_normal_mode_nowait; pure false)

  unfoldable pub handle_serrif : M (Unit {0})
  handle_serrif = do
    p ← get
    let underflow =
        any_bit p.intf Regs.int_modif && any_bit p.intf Regs.int_ivmif
        || (any_bit p.intf Regs.int_eccif || not (p.ecc.cnt == 0))
    when underflow (
        modify (
          on_stats (λ st. record st {
            tx_aborted_errors = st.tx_aborted_errors + 1;
            tx_errors = st.tx_errors + 1;
          })))
    when (any_bit p.intf Regs.int_rxovif || any_bit p.intf Regs.int_rxif)
        (modify (on_stats (λ st. record st { rx_dropped = st.rx_dropped + 1 })))

  -- Load the object once more and ask for the normal mode, if the chip stands at that object or, on
  -- the MCP2518FD, just before it.
  unfoldable pub handle_eccif_recover : ℕ → M (Unit {0})
  unfolding is_2518
  handle_eccif_recover nr = do
    chip_tx_tail ← tx_tail_get_from_chip
    p ← get
    let offset = u8 (bit_and (sub32 nr chip_tx_tail) (sub32 p.tx.obj_num 1))
    let near = offset == 0 || (offset == 1 && is_2518 p.devtype_data.model)
    if not (chip_tx_tail == get_tx_tail p.tx) || not near then raise einval else (do
      let obj = get_or p.tx.obj nr no_tx_obj
      call (spi_sync_transfer obj.buf (record { len = obj.load_len; cs_change = true } ∷ []))
      chip_set_normal_mode)

  -- The bookkeeping of a new error: counted up when it is the same as before.
  unfoldable pub note_ecc : Bool → ℕ → Priv → Priv
  note_ecc in_tx_ram ecc_stat p =
      if in_tx_ram
      then (if p.ecc.ecc_stat == ecc_stat
          then record p { ecc = record (p.ecc) { cnt = p.ecc.cnt + 1 } }
          else record p { ecc = record { ecc_stat = ecc_stat; cnt = 1 } })
      else record p { ecc = record (p.ecc) { ecc_stat = 0 } }

  unfoldable pub handle_eccif : Bool → M (Unit {0})
  unfolding note_ecc handle_eccif_recover
  handle_eccif set_normal_mode = do
    r ← call (reg_read Regs.eccstat)
    call (reg_update_bits Regs.eccstat (genmask Regs.eccstat_if_mask) (complement32 r.val))
    p ← get
    let nr = get_tx_nr_by_addr p.tx (field_get Regs.eccstat_erraddr_mask r.val)
    if any_bit r.val Regs.eccstat_secif || any_bit r.val Regs.eccstat_dedif
        then elim nr [
          | none ↦ (do
            modify (note_ecc false r.val)
            when set_normal_mode chip_set_normal_mode_nowait)
          | some n ↦ (do
            modify (note_ecc true r.val)
            q ← get
            if leb Regs.ecc_cnt_max q.ecc.cnt
                then handle_eccif_recover n
                else when set_normal_mode chip_set_normal_mode_nowait)
        ]
        else raise einval

  unfoldable pub handle_spicrcif : M (Unit {0})
  handle_spicrcif = do
    r ← call (reg_read Regs.crc)
    call_ (reg_update_bits Regs.crc (genmask Regs.crc_if_mask) (complement32 r.val))
