-- ===== src/Mcp251xfd/Setup.antt =====
-- mcp251xfd_ring_alloc, mcp251xfd_ring_init and mcp251xfd_ring_free: how the 2 KiB of controller RAM
-- are shared out between the TEF, the TX FIFO and the RX FIFOs.
pub mod Layout
use yocto_layers.Common.{
  ℕ, zero, suc, ◌+◌, ◌-◌, ◌*◌, ◌/◌, ◌%◌, ◌^◌, ◌≤◌, ◌<◌, min, max, bit_and, bit_or, bit_xor, ◌≡◌,
  refl, sym, ap, ap₂, ◌∙◌, ◌≢◌, ◌↔◌, ◌⊎◌, inl, inr, Bool, true, false, not, ◌&&◌, ◌||◌, Option,
  none, some, List, [], ◌∷◌, ◌++◌, map, length, get_elem?, get_or, set, take, drop, replicate, ltb,
  leb, ◌==◌, if◌then◌else◌, Bool-cases, u8, u16, u32, sub32, arith,
}
use yocto_layers.Mcp251xfd.Monad.{
  Env, Drv, Out, ok, err, M, pure, raise, ◌>>=◌, ◌>>◌, attempt, on_error, get, modify, when, ask,
  call, call_, tell,
}
use yocto_layers.Mcp251xfd.State.{
  Quirks, CtrlMode, Xfer, TefRing, TxObj, TxRing, RxRing, Priv, kzalloc, kfree, kfree_null, Errno,
  enomem,
}
use yocto_layers.Mcp251xfd.Regs
use yocto_layers.Mcp251xfd.Ring.{tef_obj_size, get_tef_obj_addr, get_tx_obj_addr}
use yocto_layers.Mcp251xfd.Spi.{
  cmd_write_crc_set_addr, cmd_write_nocrc, cmd_prepare_write_reg, Prepared,
}

-- sizeof of the hw_tx_obj and hw_rx_obj structures, whose payload is 8 or 64 bytes
abbrev pub tx_obj_size_can : ℕ
tx_obj_size_can = 16

abbrev pub tx_obj_size_canfd : ℕ
tx_obj_size_canfd = 72

abbrev pub rx_obj_size_can : ℕ
rx_obj_size_can = 20

abbrev pub rx_obj_size_canfd : ℕ
rx_obj_size_canfd = 76

-- ARRAY_SIZE(priv->rx)
abbrev pub rx_ring_max : ℕ
rx_ring_max = 1

-- The CAN FD sizes also serve the listen-only mode.
abbrev pub fd_sized : CtrlMode → Bool
fd_sized mode = mode.listenonly || mode.fd

-- The number and size of TX objects and the size of RX objects.
pub record Sizes : Type 0 where
  pub tx_obj_num : ℕ
  pub tx_obj_size : ℕ
  pub rx_obj_size : ℕ

unfoldable pub sizes : CtrlMode → Sizes
sizes mode =
    if fd_sized mode
    then record {
      tx_obj_num = Regs.tx_obj_num_canfd;
      tx_obj_size = tx_obj_size_canfd;
      rx_obj_size = rx_obj_size_canfd;
    }
    else record {
      tx_obj_num = Regs.tx_obj_num_can;
      tx_obj_size = tx_obj_size_can;
      rx_obj_size = rx_obj_size_can;
    }

-- 1 << (fls(n) - 1): the largest power of two up to `n`, by doubling from 1
abbrev pub round_pow2 : ℕ → ℕ → ℕ → ℕ
round_pow2 zero p n = p
round_pow2 (suc fuel) p n =
    let next = round_pow2 fuel (2 * p) n in if leb (2 * p) n then next else p

-- The objects of an RX FIFO: as many as fit, rounded down to a power of two, at most 32. An `int`
-- has 31 bits to double through.
unfoldable pub rx_obj_count : ℕ → ℕ → ℕ
rx_obj_count ram_free rx_obj_size =
    min (round_pow2 31 1 (ram_free / rx_obj_size)) Regs.rx_obj_num_max

abbrev no_xfers : List Xfer
no_xfers = []

-- A ring as kzalloc leaves it, with its two sizes set.
unfoldable pub new_rx_ring : ℕ → ℕ → RxRing
new_rx_ring obj_num obj_size = record {
  head = 0;
  tail = 0;
  base = 0;
  nr = 0;
  fifo_nr = 0;
  obj_num = u8 obj_num;
  obj_size = u8 obj_size;
  uinc_buf = [];
  uinc_xfer = no_xfers;
}

-- sizeof(struct mcp251xfd_rx_ring), which is the compiler's; only the amount asked for depends on it
module _ (sizeof_rx_ring : ℕ) ⦃env : Env⦄ where
  -- One kfree for the one pointer of priv->rx, set or not.
  unfoldable pub ring_free : M (Unit {0})
  ring_free = do
    p ← get
    tell (elim (p.rx) [ [] ↦ kfree_null | _ ∷ _ ↦ kfree ])
    modify (λ q. record q { rx = [] })

  -- What follows the kzalloc of a ring, with the rest of the loop.
  unfoldable pub keep_ring : RxRing → M (Unit {0}) → Option Errno → M (Unit {0})
  unfolding ring_free
  keep_ring ring rest (some e) = ring_free >> raise enomem
  keep_ring ring rest none = modify (λ p. record p { rx = p.rx ++ ring ∷ [] }) >> rest

  -- The `for` loop over priv->rx, with the slots that are left.
  unfoldable pub alloc_rx_rings : ℕ → ℕ → ℕ → M (Unit {0})
  unfolding keep_ring rx_obj_count new_rx_ring
  alloc_rx_rings zero rx_obj_size ram_free s = pure tt s
  alloc_rx_rings (suc slots) rx_obj_size ram_free s =
      let obj_num = rx_obj_count ram_free rx_obj_size in
      let ring = new_rx_ring obj_num rx_obj_size in
      let rest = alloc_rx_rings slots rx_obj_size (ram_free - ring.obj_num * ring.obj_size) in
      let body =
        attempt (call (kzalloc (sizeof_rx_ring + rx_obj_size * obj_num))) >>= keep_ring ring rest in
      if leb rx_obj_size ram_free then body s else pure tt s

  unfoldable pub ring_alloc : M (Unit {0})
  unfolding sizes alloc_rx_rings ring_free rx_obj_count new_rx_ring
  ring_alloc = do
    p ← get
    let z = sizes p.ctrlmode
    modify (λ q. record q {
      tx = record (q.tx) { obj_num = u8 z.tx_obj_num; obj_size = u8 z.tx_obj_size };
    })
    alloc_rx_rings rx_ring_max z.rx_obj_size
        (Regs.ram_size - z.tx_obj_num * (tef_obj_size + z.tx_obj_size))

-- `uinc_xfer[]`: every transfer sends the same buffer and leaves chip select active after it.
abbrev pub uinc_xfers : ℕ → ℕ → List Xfer
uinc_xfers n len = replicate n (record { len = len; cs_change = true })

-- mcp251xfd_tx_ring_init_tx_obj: the command goes to the front of the buffer, the rest of which
-- stays as it is.
unfoldable pub tx_ring_init_tx_obj : Quirks → TxRing → ℕ → ℕ → TxObj → TxObj
tx_ring_init_tx_obj quirks ring rts_buf_len n tx_obj =
    let addr = get_tx_obj_addr ring n in
    let cmd = if quirks.crc_tx then cmd_write_crc_set_addr addr else cmd_write_nocrc addr in
    record { buf = cmd ++ drop 2 tx_obj.buf; load_len = 0; rts_len = rts_buf_len }

-- mcp251xfd_for_each_tx_obj from object `n` on: the first `left` of the array.
unfoldable pub init_tx_objs : Quirks → TxRing → ℕ → ℕ → ℕ → List TxObj → List TxObj
unfolding tx_ring_init_tx_obj
init_tx_objs quirks ring rts_len n zero objs = objs
init_tx_objs quirks ring rts_len n (suc left) [] = []
init_tx_objs quirks ring rts_len n (suc left) (o ∷ objs) =
    tx_ring_init_tx_obj quirks ring rts_len n o ∷ init_tx_objs quirks ring rts_len (n + 1) left objs

unfoldable pub init_tef_ring : Quirks → TefRing → TefRing
init_tef_ring quirks tef =
    let uinc = cmd_prepare_write_reg quirks Regs.tefcon Regs.tefcon_uinc Regs.tefcon_uinc in
    record {
      head = 0;
      tail = 0;
      uinc_buf = uinc.buf;
      uinc_xfer = uinc_xfers Regs.tx_obj_num_can uinc.len;
    }

unfoldable pub init_tx_ring : Quirks → TxRing → TxRing
unfolding init_tx_objs
init_tx_ring quirks tx =
    let val = bit_or Regs.fifocon_txreq Regs.fifocon_uinc in
    let rts = cmd_prepare_write_reg quirks (Regs.fifocon Regs.tx_fifo) val val in
    let ring = record tx {
      head = 0;
      tail = 0;
      base = get_tef_obj_addr tx.obj_num;
      rts_buf = rts.buf;
    } in
    record ring { obj = init_tx_objs quirks ring rts.len 0 ring.obj_num ring.obj }

-- mcp251xfd_for_each_rx_ring from ring `i` on, whose base is the end of the object before it.
unfoldable pub init_rx_rings : Quirks → ℕ → ℕ → List RxRing → List RxRing
init_rx_rings quirks i base [] = []
init_rx_rings quirks i base (ring ∷ rings) =
    let fifo_nr = Regs.rx_fifo i in
    let uinc =
      cmd_prepare_write_reg quirks (Regs.fifocon fifo_nr) Regs.fifocon_uinc Regs.fifocon_uinc in
    record ring {
      head = 0;
      tail = 0;
      nr = i;
      fifo_nr = fifo_nr;
      base = base;
      uinc_buf = uinc.buf;
      uinc_xfer = uinc_xfers Regs.rx_obj_num_max uinc.len;
    }
    ∷ init_rx_rings quirks (i + 1) (u16 (base + ring.obj_size * ring.obj_num)) rings

unfoldable pub ring_init : Priv → Priv
unfolding init_tef_ring init_tx_ring init_rx_rings
ring_init p =
    let quirks = p.devtype_data.quirks in
    let tx = init_tx_ring quirks p.tx in
    record p {
      tef = init_tef_ring quirks p.tef;
      tx = tx;
      rx = init_rx_rings quirks 0 (get_tx_obj_addr tx tx.obj_num) p.rx;
    }
