-- ===== src/Mcp251xfd/Rx.antt =====
-- Reception: mcp251xfd_handle_rxif and what it calls.
pub mod Frame
pub mod RoundTrip
pub mod Drain
pub mod Deliver
use yocto_layers.Common.{
  ℕ, zero, suc, ◌+◌, ◌-◌, ◌*◌, ◌/◌, ◌%◌, ◌^◌, ◌≤◌, ◌<◌, min, max, bit_and, bit_or, bit_xor, ◌≡◌,
  refl, sym, ap, ap₂, ◌∙◌, ◌≢◌, ◌↔◌, ◌⊎◌, inl, inr, Bool, true, false, not, ◌&&◌, ◌||◌, Option,
  none, some, List, [], ◌∷◌, ◌++◌, map, length, get_elem?, get_or, set, take, drop, replicate, ltb,
  leb, ◌==◌, if◌then◌else◌, Bool-cases, u8, u16, u32, sub32, arith,
}
use yocto_layers.Mcp251xfd.Monad.{
  Env, Drv, Out, ok, err, stuck, M, pure, raise, ◌>>=◌, ◌>>◌, attempt, on_error, failing_with,
  return, get, modify, when, ask, call, call_, tell,
}
use yocto_layers.Mcp251xfd.State.{
  eilseq, HwRxObj, CanFrame, RxRing, Priv, reg_read, rx_bulk_read, spi_sync_transfer, alloc_can_skb,
  alloc_canfd_skb, can_rx_offload_queue_sorted,
}
use yocto_layers.Mcp251xfd.CanAbi
use yocto_layers.Mcp251xfd.Regs
use yocto_layers.Mcp251xfd.Regs.{field_get, field_prep, any_bit}
use yocto_layers.Mcp251xfd.Ring.{get_rx_obj_addr, get_rx_tail, get_rx_linear_len}
use yocto_layers.Mcp251xfd.Tef.{round_down, release_last}

-- can_id without the RTR flag
unfoldable pub rx_can_id : HwRxObj → ℕ
rx_can_id obj =
    if any_bit obj.flags Regs.obj_flags_ide
    then (let eid = field_get Regs.obj_id_eid_mask obj.id in
        let sid = field_get Regs.obj_id_sid_mask obj.id in
        bit_or CanAbi.eff_flag (
          bit_or (field_prep Regs.frame_eff_eid_mask eid) (field_prep Regs.frame_eff_sid_mask sid)))
    else field_get Regs.obj_id_sid_mask obj.id

unfoldable pub rx_fd_flags : HwRxObj → ℕ
rx_fd_flags obj =
    bit_or (if any_bit obj.flags Regs.obj_flags_esi then CanAbi.canfd_esi else 0)
      (if any_bit obj.flags Regs.obj_flags_brs then CanAbi.canfd_brs else 0)

-- can_cc_dlc2len of this file
abbrev pub cc_dlc2len : ℕ → ℕ
cc_dlc2len dlc = min dlc CanAbi.max_dlen

-- mcp251xfd_hw_rx_obj_to_skb, into the zeroed frame of a new skb; `dlc2len` is can_fd_dlc2len.
unfoldable pub hw_rx_obj_to_skb : (ℕ → ℕ) → HwRxObj → CanFrame
unfolding rx_can_id rx_fd_flags
hw_rx_obj_to_skb dlc2len obj =
    let id = rx_can_id obj in
    let dlc = field_get Regs.obj_flags_dlc obj.flags in
    let fd = any_bit obj.flags Regs.obj_flags_fdf in
    let len = if fd then dlc2len dlc else cc_dlc2len dlc in
    let rtr = if any_bit obj.flags Regs.obj_flags_rtr then bit_or id CanAbi.rtr_flag else id in
    record {
      can_id = if fd then id else rtr;
      len = len;
      flags = if fd then rx_fd_flags obj else 0;
      payload = take len obj.payload;
    }

-- The new head of mcp251xfd_rx_ring_update.
unfoldable pub rx_new_head : RxRing → ℕ → ℕ
unfolding round_down
rx_new_head ring chip_rx_head =
    let new_head = u32 (round_down ring.head ring.obj_num + chip_rx_head) in
    if leb new_head ring.head then u32 (new_head + ring.obj_num) else new_head

abbrev no_obj : HwRxObj
no_obj = record { id = 0; flags = 0; ts = 0; payload = [] }

-- The `n` objects that a read fills.
abbrev pub rx_objs_read : ℕ → List HwRxObj → List HwRxObj
rx_objs_read zero xs = []
rx_objs_read (suc n) [] = no_obj ∷ rx_objs_read n []
rx_objs_read (suc n) (x ∷ xs) = x ∷ rx_objs_read n xs

abbrev pub no_ring : RxRing
no_ring = record {
  head = 0;
  tail = 0;
  base = 0;
  nr = 0;
  fifo_nr = 0;
  obj_num = 0;
  obj_size = 0;
  uinc_buf = [];
  uinc_xfer = [];
}

-- priv->rx[n], read and updated in place.
abbrev pub rx_ring : ℕ → Priv → RxRing
rx_ring n p = get_or p.rx n no_ring

abbrev pub put_rx_ring : ℕ → RxRing → Priv → Priv
put_rx_ring n ring p = record p { rx = set p.rx n ring }

module _ ⦃env : Env⦄ where
  unfoldable pub rx_head_get_from_chip : RxRing → M ℕ
  rx_head_get_from_chip ring = do
    r ← call (reg_read (Regs.fifosta ring.fifo_nr))
    pure (field_get Regs.fifosta_fifoci_mask r.val)

  -- `fifo_ua -= ring->base - MCP251XFD_RAM_START` on u32
  unfoldable pub rx_tail_get_from_chip : RxRing → M ℕ
  rx_tail_get_from_chip ring = do
    r ← call (reg_read (Regs.fifoua ring.fifo_nr))
    pure (u8 (sub32 r.val (sub32 ring.base Regs.ram_start) / ring.obj_size))

  unfoldable pub check_rx_tail : RxRing → M (Unit {0})
  unfolding rx_tail_get_from_chip
  check_rx_tail ring = when env.sanity (do
    chip ← rx_tail_get_from_chip ring
    if chip == get_rx_tail ring then pure tt else raise eilseq)

  unfoldable pub rx_ring_update : ℕ → M (Unit {0})
  unfolding rx_head_get_from_chip rx_new_head check_rx_tail
  rx_ring_update n = do
    p ← get
    chip_rx_head ← rx_head_get_from_chip (rx_ring n p)
    let ring = record (rx_ring n p) { head = rx_new_head (rx_ring n p) chip_rx_head }
    modify (put_rx_ring n ring)
    check_rx_tail ring

  abbrev pub count_rx_fifo_error : M (Unit {0})
  count_rx_fifo_error =
      modify
        (λ p. record p { stats = record (p.stats) { rx_fifo_errors = p.stats.rx_fifo_errors + 1 } })

  abbrev pub count_rx_dropped : M (Unit {0})
  count_rx_dropped =
      modify (λ p. record p { stats = record (p.stats) { rx_dropped = p.stats.rx_dropped + 1 } })

  -- `err = can_rx_offload_queue_sorted(...); if (err) stats->rx_fifo_errors++;`
  unfoldable pub queue_sorted : CanFrame → ℕ → M (Unit {0})
  queue_sorted frame ts = do
    failed ← attempt (call (can_rx_offload_queue_sorted frame ts))
    elim failed [ none ↦ pure tt | some _ ↦ count_rx_fifo_error ]

  unfoldable pub handle_rxif_one : HwRxObj → M (Unit {0})
  unfolding hw_rx_obj_to_skb queue_sorted
  handle_rxif_one obj = do
    failed ←
        attempt
          (call (if any_bit obj.flags Regs.obj_flags_fdf then alloc_canfd_skb else alloc_can_skb))
    elim failed [
      | some _ ↦ count_rx_dropped
      | none ↦ queue_sorted (hw_rx_obj_to_skb env.dlc2len obj) obj.ts
    ]

  unfoldable pub rx_obj_read : RxRing → ℕ → ℕ → M (List HwRxObj)
  rx_obj_read ring offset len = do
    r ← call (rx_bulk_read (get_rx_obj_addr ring offset) (len * ring.obj_size / 4))
    pure (rx_objs_read len r.rx_objs)

  unfoldable pub handle_rx_objs : List HwRxObj → M (Unit {0})
  unfolding handle_rxif_one
  handle_rx_objs [] s = pure tt s
  handle_rx_objs (obj ∷ objs) s = (handle_rxif_one obj >> handle_rx_objs objs) s

  -- Tell the chip that `len` objects are read.
  unfoldable pub rx_advance : ℕ → ℕ → M (Unit {0})
  unfolding release_last
  rx_advance n len = do
    p ← get
    let ring = rx_ring n p
    call (spi_sync_transfer ring.uinc_buf (release_last len ring.uinc_xfer))
    modify (λ q. put_rx_ring n (record (rx_ring n q) { tail = u32 ((rx_ring n q).tail + len) }) q)

  -- One round of the `while` loop: `len` objects from the tail on.
  unfoldable pub rx_round : ℕ → ℕ → M (Unit {0})
  unfolding rx_obj_read handle_rx_objs rx_advance
  rx_round n len = do
    p ← get
    objs ← rx_obj_read (rx_ring n p) (get_rx_tail (rx_ring n p)) len
    handle_rx_objs objs
    rx_advance n len

  unfoldable pub rx_loop : ℕ → ℕ → M (Unit {0})
  unfolding rx_round
  rx_loop zero n s = stuck
  rx_loop (suc fuel) n s =
      let len = get_rx_linear_len (rx_ring n s.priv) in
      let rest = (rx_round n len >> rx_loop fuel n) in if len == 0 then ok tt s else rest s

  -- A length is a u8 that falls in each round, so 256 rounds are enough.
  abbrev pub rx_fuel : ℕ
  rx_fuel = 256

  unfoldable pub handle_rxif_ring : ℕ → M (Unit {0})
  unfolding rx_ring_update rx_loop
  handle_rxif_ring n = do rx_ring_update n; rx_loop rx_fuel n

  -- mcp251xfd_for_each_rx_ring from ring `n` on, with the rings that are left.
  unfoldable pub handle_rxif_rings : ℕ → ℕ → M (Unit {0})
  unfolding handle_rxif_ring
  handle_rxif_rings n zero s = pure tt s
  handle_rxif_rings n (suc left) s = (handle_rxif_ring n >> handle_rxif_rings (n + 1) left) s

  unfoldable pub handle_rxif : M (Unit {0})
  unfolding handle_rxif_rings
  handle_rxif = do p ← get; handle_rxif_rings 0 (length p.rx)
