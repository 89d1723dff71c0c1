-- ===== src/Mcp251xfd/Tef.antt =====
-- The transmit event FIFO: mcp251xfd_handle_tefif and what it calls. The chip reports each frame that
-- it sent with the sequence number that the driver gave it.
pub mod Head
pub mod Progress
pub mod Release
use yocto_layers.Common.{
  ℕ, zero, suc, ◌+◌, ◌-◌, ◌*◌, ◌/◌, ◌%◌, ◌^◌, ◌≤◌, ◌<◌, min, max, bit_and, bit_or, bit_xor, ◌≡◌,
  refl, sym, ap, ap₂, ◌∙◌, ◌≢◌, ◌↔◌, ◌⊎◌, inl, inr, Bool, true, false, not, ◌&&◌, ◌||◌, Option,
  none, some, List, [], ◌∷◌, ◌++◌, map, length, get_elem?, get_or, set, take, drop, replicate, ltb,
  leb, ◌==◌, if◌then◌else◌, Bool-cases, u8, u16, u32, sub32, arith,
}
use yocto_layers.Mcp251xfd.Monad.{
  Env, Drv, Out, ok, err, stuck, M, pure, raise, ◌>>=◌, ◌>>◌, attempt, on_error, failing_with,
  return, get, modify, when, ask, call, call_, tell,
}
use yocto_layers.Mcp251xfd.State.{
  Errno, eagain, eilseq, enobufs, erange, HwTefObj, Xfer, TefRing, TxRing, Priv, reg_read,
  tef_bulk_read, spi_sync_transfer, can_rx_offload_get_echo_skb, netif_wake_queue,
}
use yocto_layers.Mcp251xfd.Regs
use yocto_layers.Mcp251xfd.Regs.{field_get, any_bit, width}
use yocto_layers.Mcp251xfd.Ring.{
  tef_obj_size, get_tef_obj_addr, get_tef_tail, get_tef_len, get_tef_linear_len, get_tx_free,
}

-- round_down(x, y) for a power of two: `x & ~(y - 1)`
unfoldable pub round_down : ℕ → ℕ → ℕ
round_down x y = x - bit_and x (sub32 y 1)

-- The sequence numbers are compared under the mask of the MCP2517FD, which is the narrower one.
unfoldable pub masked_seq : ℕ → ℕ
masked_seq seq = bit_and seq (2 ^ width Regs.obj_flags_seq_mcp2517fd_mask - 1)

unfoldable pub is_eagain : Errno → Bool
is_eagain eagain = true
is_eagain _ = false

-- The new head of mcp251xfd_tef_ring_update: the chip's index laid over the old head, a round later
-- if it is not past that, and not past the TX head.
unfoldable pub tef_new_head : TefRing → TxRing → ℕ → ℕ
unfolding round_down
tef_new_head tef tx chip_tx_tail =
    let new_head = u32 (round_down tef.head tx.obj_num + chip_tx_tail) in
    let ahead = if leb new_head tef.head then u32 (new_head + tx.obj_num) else new_head in
    min ahead tx.head

-- The first `n` transfers, the last of them with `cs_change` off: what is sent while the driver has
-- it switched.
unfoldable pub release_last : ℕ → List Xfer → List Xfer
release_last zero xs = []
release_last (suc n) [] = []
release_last (suc zero) (x ∷ xs) = record x { cs_change = false } ∷ []
release_last (suc (suc n)) (x ∷ xs) = x ∷ release_last (suc n) xs

abbrev no_obj : HwTefObj
no_obj = record { id = 0; flags = 0; ts = 0 }

-- The `n` objects that a read fills.
abbrev pub tef_objs_read : ℕ → List HwTefObj → List HwTefObj
tef_objs_read zero xs = []
tef_objs_read (suc n) [] = no_obj ∷ tef_objs_read n []
tef_objs_read (suc n) (x ∷ xs) = x ∷ tef_objs_read n xs

module _ ⦃env : Env⦄ where
  unfoldable pub tef_tail_get_from_chip : M ℕ
  tef_tail_get_from_chip = do r ← call (reg_read Regs.tefua); pure (u8 (r.val / tef_obj_size))

  unfoldable pub tx_tail_get_from_chip : M ℕ
  tx_tail_get_from_chip = do
    r ← call (reg_read (Regs.fifosta Regs.tx_fifo))
    pure (field_get Regs.fifosta_fifoci_mask r.val)

  unfoldable pub check_tef_tail : M (Unit {0})
  unfolding tef_tail_get_from_chip
  check_tef_tail = when env.sanity (do
    chip ← tef_tail_get_from_chip
    p ← get
    if chip == get_tef_tail p.tef p.tx then pure tt else raise eilseq)

  unfoldable pub handle_tefif_recover : M (Unit {0})
  handle_tefif_recover = do
    r ← call (reg_read Regs.tefsta)
    if any_bit r.val Regs.tefsta_tefovif then raise enobufs else raise eagain

  -- The object at the tail is taken in if its sequence number is the one that is due.
  unfoldable pub handle_tefif_one : HwTefObj → M (Unit {0})
  unfolding masked_seq handle_tefif_recover
  handle_tefif_one obj = do
    p ← get
    let seq = field_get Regs.obj_flags_seq_mcp2518fd_mask obj.flags
    if masked_seq seq == masked_seq p.tef.tail
        then (do
          r ← ask (can_rx_offload_get_echo_skb (get_tef_tail p.tef p.tx) obj.ts)
          modify (λ q. record q {
            stats = record (q.stats) {
              tx_bytes = q.stats.tx_bytes + r.val;
              tx_packets = q.stats.tx_packets + 1;
            };
            tef = record (q.tef) { tail = u32 (q.tef.tail + 1) };
          }))
        else handle_tefif_recover

  unfoldable pub tef_ring_update : M (Unit {0})
  unfolding tx_tail_get_from_chip tef_new_head check_tef_tail
  tef_ring_update = do
    chip_tx_tail ← tx_tail_get_from_chip
    modify (λ p. record p { tef = record (p.tef) { head = tef_new_head p.tef p.tx chip_tx_tail } })
    check_tef_tail

  unfoldable pub tef_obj_read : ℕ → ℕ → M (List HwTefObj)
  tef_obj_read offset len = do
    p ← get
    let n = p.tx.obj_num
    if env.sanity && (ltb n offset || (ltb n len || ltb n (offset + len)))
        then raise erange
        else (do
          r ← call (tef_bulk_read (get_tef_obj_addr offset) (tef_obj_size / 4 * len))
          pure (tef_objs_read len r.tef_objs))

  -- The `for` loop: the number of objects handled when it ends or meets -EAGAIN.
  unfoldable pub tefif_loop : List HwTefObj → ℕ → M ℕ
  unfolding handle_tefif_one is_eagain
  tefif_loop [] i s = pure i s
  tefif_loop (obj ∷ objs) i s = elim (handle_tefif_one obj s) [
    | ok _ t ↦ tefif_loop objs (i + 1) t
    | err e t ↦ if is_eagain e then ok i t else err e t
    | stuck ↦ stuck
  ]

  -- The objects from the tail to the head, in one read or in two.
  unfoldable pub tef_objs : M (List HwTefObj)
  unfolding tef_obj_read
  tef_objs = do
    p ← get
    let len = get_tef_len p.tef
    let l = get_tef_linear_len p.tef p.tx
    first ← tef_obj_read (get_tef_tail p.tef p.tx) l
    if ltb l len then (do rest ← tef_obj_read 0 (len - l); pure (first ++ rest)) else pure first

  -- Tell the chip that `len` objects are done, and free their TX objects.
  unfoldable pub tef_advance : ℕ → M (Unit {0})
  unfolding release_last check_tef_tail
  tef_advance len = do
    p ← get
    call (spi_sync_transfer p.tef.uinc_buf (release_last len p.tef.uinc_xfer))
    modify (λ q. record q { tx = record (q.tx) { tail = u32 (q.tx.tail + len) } })
    check_tef_tail

  unfoldable pub ecc_tefif_successful : M (Unit {0})
  ecc_tefif_successful = modify (λ p. record p { ecc = record (p.ecc) { ecc_stat = 0 } })

  unfoldable pub handle_tefif : M (Unit {0})
  unfolding tef_ring_update tef_objs tefif_loop tef_advance ecc_tefif_successful
  handle_tefif = do
    tef_ring_update
    objs ← tef_objs
    len ← tefif_loop objs 0
    when (not (len == 0)) (tef_advance len)
    ecc_tefif_successful
    p ← get
    when (not (get_tx_free p.tx == 0)) (tell netif_wake_queue)
