-- ===== src/Mcp251xfd/Tef/Head.antt =====
-- The head that mcp251xfd_tef_ring_update and mcp251xfd_rx_ring_update make from the chip's index.
use yocto_layers.Common.{ℕ, ◌+◌, ◌-◌, ◌*◌, ◌/◌, ◌%◌, ◌^◌, ◌≤◌, ◌<◌, bit_and, ◌≡◌, ap, sub32, arith}
use native.Mathlib.Nat.{div-add-mod, mod-lt, one-le-pow}
use yocto_layers.Common.Fields.{and_mask}
use yocto_layers.Mcp251xfd.State.{TefRing, TxRing, RxRing}
use yocto_layers.Mcp251xfd.Ring.Index.{next_counter}
use yocto_layers.Mcp251xfd.Tef.{round_down, tef_new_head}
use yocto_layers.Mcp251xfd.Rx.{rx_new_head}

pub round_down_lem : (k n x : ℕ) → n ≡ 2 ^ k → 1 ≤ n → n ≤ 128 → round_down x n ≡ x / n * n
unfolding round_down
round_down_lem k n x e lo hi =
    let m : sub32 n 1 ≡ 2 ^ k - 1 = omega arith in
    omega (arith, ap (bit_and x) m, and_mask k x, ap (λ (t : ℕ). x % t) e, div-add-mod x n)

pub tef_new_head_lem :
    (k c : ℕ) (tef : TefRing) (tx : TxRing)
    → tx.obj_num ≡ 2 ^ k
    → tx.obj_num ≤ 128
    → tef.head < c
    → c ≤ tef.head + tx.obj_num
    → c ≤ tx.head
    → tx.head + 2 * tx.obj_num < 2 ^ 32
    → tef_new_head tef tx (c % tx.obj_num) ≡ c
unfolding tef_new_head
tef_new_head_lem k c tef tx e small lo hi le wrap =
    let pos : 1 ≤ tx.obj_num = omega (arith, one-le-pow k 2) in
    ground (
      arith,
      round_down_lem k tx.obj_num tef.head e pos small,
      next_counter tx.obj_num tef.head c pos lo hi,
      div-add-mod tef.head tx.obj_num,
      mod-lt c pos,
    )

-- While the counter is not about to wrap, the index that the chip shows for a counter `c`, which is
-- past the old head by at least one object and at most one round, gives back `c` as the new RX head.
pub rx_new_head_lem :
    (k c : ℕ) (ring : RxRing)
    → ring.obj_num ≡ 2 ^ k
    → ring.obj_num ≤ 128
    → ring.head < c
    → c ≤ ring.head + ring.obj_num
    → ring.head + 2 * ring.obj_num < 2 ^ 32
    → rx_new_head ring (c % ring.obj_num) ≡ c
unfolding rx_new_head
rx_new_head_lem k c ring e small lo hi wrap =
    let pos : 1 ≤ ring.obj_num = omega (arith, one-le-pow k 2) in
    ground (
      arith,
      round_down_lem k ring.obj_num ring.head e pos small,
      next_counter ring.obj_num ring.head c pos lo hi,
      div-add-mod ring.head ring.obj_num,
      mod-lt c pos,
    )
