-- ===== src/Mcp251xfd/Ring.antt =====
-- The ring arithmetic of mcp251xfd.h. `head` and `tail` are free-running `unsigned int` counters; the
-- slot of a counter is its low bits.
pub mod Index
pub mod Addr
use yocto_layers.Common.{
  ℕ, ◌+◌, ◌-◌, ◌*◌, ◌/◌, ◌%◌, ◌^◌, min, bit_and, Option, none, some, ◌||◌, ltb, leb, u8, u16, sub32,
  if◌then◌else◌,
}
use yocto_layers.Mcp251xfd.State.{TefRing, TxRing, RxRing}
use yocto_layers.Mcp251xfd.Regs

-- sizeof(struct mcp251xfd_hw_tef_obj)
abbrev pub tef_obj_size : ℕ
tef_obj_size = 12

unfoldable pub get_tef_obj_addr : ℕ → ℕ
get_tef_obj_addr n = u16 (Regs.ram_start + tef_obj_size * n)

unfoldable pub get_tx_obj_addr : TxRing → ℕ → ℕ
get_tx_obj_addr ring n = u16 (ring.base + ring.obj_size * n)

unfoldable pub get_rx_obj_addr : RxRing → ℕ → ℕ
get_rx_obj_addr ring n = u16 (ring.base + ring.obj_size * n)

-- `counter & (obj_num - 1)`, cut to a u8
unfoldable pub slot : ℕ → ℕ → ℕ
slot counter obj_num = u8 (bit_and counter (sub32 obj_num 1))

unfoldable pub get_tef_head : TefRing → TxRing → ℕ
unfolding slot
get_tef_head tef tx = slot tef.head tx.obj_num

unfoldable pub get_tef_tail : TefRing → TxRing → ℕ
unfolding slot
get_tef_tail tef tx = slot tef.tail tx.obj_num

unfoldable pub get_tef_len : TefRing → ℕ
get_tef_len tef = u8 (sub32 tef.head tef.tail)

unfoldable pub get_tef_linear_len : TefRing → TxRing → ℕ
unfolding get_tef_len get_tef_tail
get_tef_linear_len tef tx = min (get_tef_len tef) (u8 (tx.obj_num + 2 ^ 8 - get_tef_tail tef tx))

unfoldable pub get_tx_head : TxRing → ℕ
unfolding slot
get_tx_head ring = slot ring.head ring.obj_num

unfoldable pub get_tx_tail : TxRing → ℕ
unfolding slot
get_tx_tail ring = slot ring.tail ring.obj_num

unfoldable pub get_tx_free : TxRing → ℕ
get_tx_free ring = u8 (sub32 ring.obj_num (sub32 ring.head ring.tail))

-- `none` is -ENOENT.
unfoldable pub get_tx_nr_by_addr : TxRing → ℕ → Option ℕ
unfolding get_tx_obj_addr
get_tx_nr_by_addr ring addr =
    if ltb addr (get_tx_obj_addr ring 0) || leb (get_tx_obj_addr ring ring.obj_num) addr
    then none
    else some (u8 ((addr - get_tx_obj_addr ring 0) / ring.obj_size))

unfoldable pub get_rx_head : RxRing → ℕ
unfolding slot
get_rx_head ring = slot ring.head ring.obj_num

unfoldable pub get_rx_tail : RxRing → ℕ
unfolding slot
get_rx_tail ring = slot ring.tail ring.obj_num

unfoldable pub get_rx_len : RxRing → ℕ
get_rx_len ring = u8 (sub32 ring.head ring.tail)

unfoldable pub get_rx_linear_len : RxRing → ℕ
unfolding get_rx_len get_rx_tail
get_rx_linear_len ring = min (get_rx_len ring) (u8 (ring.obj_num + 2 ^ 8 - get_rx_tail ring))
