-- ===== src/Mcp251xfd/Tx.antt =====
-- Transmission: mcp251xfd_start_xmit and what it calls.
pub mod Space
pub mod Content
pub mod Message
use yocto_layers.Common.{
  ℕ, zero, suc, ◌+◌, ◌-◌, ◌*◌, ◌/◌, ◌%◌, ◌^◌, ◌≤◌, ◌<◌, min, max, bit_and, bit_or, bit_xor, ◌≡◌,
  refl, sym, ap, ap₂, ◌∙◌, ◌≢◌, ◌↔◌, ◌⊎◌, inl, inr, Bool, true, false, not, ◌&&◌, ◌||◌, Option,
  none, some, List, [], ◌∷◌, ◌++◌, map, length, get_elem?, get_or, set, take, drop, replicate, ltb,
  leb, ◌==◌, if◌then◌else◌, Bool-cases, u8, u16, u32, sub32, arith,
}
use yocto_layers.Mcp251xfd.Monad.{
  Env, Drv, Out, ok, err, stuck, M, pure, raise, ◌>>=◌, ◌>>◌, attempt, on_error, failing_with,
  return, get, modify, when, ask, call, call_, tell,
}
use yocto_layers.Crc16.{crc16_compute}
use yocto_layers.Mcp251xfd.State.{
  CanFrame, TxObj, TxRing, Priv, can_dropped_invalid_skb, can_put_echo_skb, spi_async,
  netif_stop_queue, netif_start_queue,
}
use yocto_layers.Mcp251xfd.CanAbi
use yocto_layers.Mcp251xfd.Regs
use yocto_layers.Mcp251xfd.Regs.{field_get, field_prep, any_bit}
use yocto_layers.Mcp251xfd.Ring.{get_tx_head, get_tx_free}
use yocto_layers.Mcp251xfd.Spi.{be16, le32, cmd_crc_set_len_in_ram}
use yocto_layers.Mcp251xfd.Tef.{round_down}

unfoldable pub tx_id : ℕ → ℕ
tx_id can_id =
    if any_bit can_id CanAbi.eff_flag
    then bit_or (field_prep Regs.obj_id_eid_mask (field_get Regs.frame_eff_eid_mask can_id))
        (field_prep Regs.obj_id_sid_mask (field_get Regs.frame_eff_sid_mask can_id))
    else field_prep Regs.obj_id_sid_mask can_id

-- The ESI, FDF and BRS flags of a CAN FD frame.
unfoldable pub tx_fd_flags : CanFrame → ℕ
tx_fd_flags cfd = bit_or (if any_bit cfd.flags CanAbi.canfd_esi then Regs.obj_flags_esi else 0) (
    bit_or Regs.obj_flags_fdf
      (if any_bit cfd.flags CanAbi.canfd_brs then Regs.obj_flags_brs else 0))

-- `fd` is can_is_canfd_skb, `dlc` the length code and `seq` the sequence number.
unfoldable pub tx_flags : CanFrame → Bool → ℕ → ℕ → ℕ
unfolding tx_fd_flags
tx_flags cfd fd dlc seq =
    let ide = if any_bit cfd.can_id CanAbi.eff_flag then Regs.obj_flags_ide else 0 in
    let numbers =
      bit_or (field_prep Regs.obj_flags_seq_mcp2518fd_mask seq)
        (field_prep Regs.obj_flags_dlc dlc) in
    let rtr = if any_bit cfd.can_id CanAbi.rtr_flag then Regs.obj_flags_rtr else 0 in
    bit_or (bit_or (bit_or ide numbers) rtr) (if fd then tx_fd_flags cfd else 0)

-- A memcpy to offset `off` of a buffer.
unfoldable pub write_at : List ℕ → ℕ → List ℕ → List ℕ
write_at buf off bytes = take off buf ++ bytes ++ drop (off + length bytes) buf

-- round_up(x, sizeof(u32))
unfoldable pub round_up4 : ℕ → ℕ
round_up4 x = (x + 3) / 4 * 4

-- MCP251XFD_SANITIZE_CAN is 1: the words of the payload area that the frame does not fill are
-- cleared, then the payload is copied. `hdr` is the offset of hw_tx_obj, `size` the length that the
-- length code stands for.
unfoldable pub load_payload : List ℕ → ℕ → CanFrame → ℕ → List ℕ
unfolding write_at round_up4 round_down
load_payload buf hdr cfd size =
    let offset = round_down cfd.len 4 in
    let len = round_up4 size - offset in
    let cleared = if len == 0 then buf else write_at buf (hdr + 8 + offset) (replicate len 0) in
    write_at cleared (hdr + 8) (take cfd.len cfd.payload)

-- The bytes of `load_buf` behind the command, and how many bytes of it are sent.
unfoldable pub load_frame : List ℕ → Bool → ℕ → ℕ → CanFrame → ℕ → TxObj → TxObj
unfolding write_at load_payload round_up4 cmd_crc_set_len_in_ram
load_frame buf crc_tx id flags cfd size obj =
    let hdr = if crc_tx then 3 else 2 in
    let words = write_at (write_at buf hdr (le32 id)) (hdr + 4) (le32 flags) in
    let loaded = load_payload words hdr cfd size in
    let len = 8 + round_up4 size in
    if crc_tx
    then (let counted = write_at loaded 2 (cmd_crc_set_len_in_ram len ∷ []) in
        let crc = crc16_compute (take (len + 3) counted) in
        record obj { buf = write_at counted (len + 3) (be16 crc); load_len = len + 3 + 2 })
    else record obj { buf = loaded; load_len = len + 2 }

-- NETDEV_TX_OK and NETDEV_TX_BUSY
pub data NetdevTx : Type 0 where
  tx_ok tx_busy_code : NetdevTx

module _ ⦃env : Env⦄ where
  unfoldable pub tx_obj_from_skb : Priv → TxObj → CanFrame → Bool → ℕ → TxObj
  unfolding tx_id tx_flags load_frame
  tx_obj_from_skb p obj cfd fd seq =
      let dlc = u8 (env.len2dlc cfd.len) in
      load_frame obj.buf p.devtype_data.quirks.crc_tx (tx_id cfd.can_id) (tx_flags cfd fd dlc seq)
        cfd (env.dlc2len dlc) obj

  -- `meanwhile` is what the interrupt thread does between the stop of the queue and the second look
  -- at the ring.
  unfoldable pub tx_busy : M (Unit {0}) → M Bool
  tx_busy meanwhile = do
    p ← get
    if ltb 0 (get_tx_free p.tx) then pure false else (do
      tell netif_stop_queue
      meanwhile
      q ← get
      if get_tx_free q.tx == 0 then pure true else (do tell netif_start_queue; pure false))

  abbrev no_tx_obj : TxObj
  no_tx_obj = record { buf = []; load_len = 0; rts_len = 0 }

  -- Load the object at the head, move the head, and stop the queue when the FIFO is full.
  unfoldable pub tx_load : CanFrame → Bool → M (Unit {0})
  unfolding tx_obj_from_skb
  tx_load cfd fd = do
    p ← get
    let i = get_tx_head p.tx
    let obj = tx_obj_from_skb p (get_or p.tx.obj i no_tx_obj) cfd fd p.tx.head
    modify (λ q. record q {
      tx = record (q.tx) { obj = set q.tx.obj i obj; head = u32 (q.tx.head + 1) };
    })
    q ← get
    when (leb q.tx.obj_num (sub32 q.tx.head q.tx.tail)) (tell netif_stop_queue)
    tell (can_put_echo_skb i)
    attempt (call (spi_async (take obj.load_len obj.buf) (take obj.rts_len q.tx.rts_buf)))
    pure tt

  -- An invalid frame and a failed spi_async are both NETDEV_TX_OK.
  unfoldable pub start_xmit : M (Unit {0}) → CanFrame → Bool → M NetdevTx
  unfolding tx_busy tx_load
  start_xmit meanwhile cfd fd = do
    dropped ← ask (can_dropped_invalid_skb cfd)
    if not (dropped.val == 0) then pure tx_ok else (do
      busy ← tx_busy meanwhile
      if busy then pure tx_busy_code else (do tx_load cfd fd; pure tx_ok))
