-- ===== src/Mcp251xfd/Setup/Layout.antt =====
-- How mcp251xfd_ring_alloc and mcp251xfd_ring_init share the 2 KiB of controller RAM out.
use yocto_layers.Common.{
  ℕ, ◌+◌, ◌*◌, ◌≤◌, ◌≡◌, refl, Bool, true, false, List, [], length, get_or, arith,
}
use yocto_layers.Mcp251xfd.Regs
use yocto_layers.Mcp251xfd.Monad.{Env, Drv}
use yocto_layers.Mcp251xfd.State.{Errno, Call, RxRing, Priv}
use yocto_layers.Mcp251xfd.Post.{Ends, returns, fails, attempt-call-Ends}
use yocto_layers.Mcp251xfd.Ring.{tef_obj_size, get_tx_obj_addr, get_tef_obj_addr}
use yocto_layers.Mcp251xfd.Rx.{no_ring}
use yocto_layers.Mcp251xfd.Setup.{
  fd_sized, ring_alloc, ring_init, alloc_rx_rings, keep_ring, sizes, init_tx_ring, init_rx_rings,
  rx_obj_count, new_rx_ring,
}

-- There is one RX ring; TEF objects, TX objects and its objects follow each other without a gap and
-- end within the RAM.
unfoldable pub InRam : Priv → Type 0
InRam p =
    let rx : RxRing = get_or p.rx 0 no_ring in
    (p.tx.base ≡ Regs.ram_start + tef_obj_size * p.tx.obj_num)
    × (length p.rx ≡ 1)
    × (rx.base ≡ p.tx.base + p.tx.obj_size * p.tx.obj_num)
    × (rx.base + rx.obj_size * rx.obj_num ≤ Regs.ram_start + Regs.ram_size)

abbrev pub NoRing : Errno → Drv → Type 0
NoRing e t = t.priv.rx ≡ []

module _ (sizeof_rx_ring : ℕ) ⦃env : Env⦄ where
  alloc_fd :
      (z : Bool) (p : Priv) (calls : List Call)
      → fd_sized p.ctrlmode ≡ z
      → Ends
          (λ _ t. InRam (ring_init t.priv))
          NoRing
          (ring_alloc sizeof_rx_ring (record { priv = record p { rx = [] }; calls = calls }))
  unfolding ring_alloc sizes alloc_rx_rings keep_ring ring_init init_rx_rings init_tx_ring
      get_tx_obj_addr get_tef_obj_addr rx_obj_count new_rx_ring InRam
  alloc_fd true p calls e =
      rw e (attempt-call-Ends _ _ _ (returns (refl, refl, refl, omega arith)) (λ x. fails refl))
  alloc_fd false p calls e =
      rw e (attempt-call-Ends _ _ _ (returns (refl, refl, refl, omega arith)) (λ x. fails refl))

  -- On a device without RX rings, in every control mode, the allocation either succeeds, and the
  -- initialisation then lays the rings out in the RAM, or fails and leaves no ring.
  pub ring_alloc-InRam :
      (p : Priv) (calls : List Call)
      → Ends
          (λ _ t. InRam (ring_init t.priv))
          NoRing
          (ring_alloc sizeof_rx_ring (record { priv = record p { rx = [] }; calls = calls }))
  ring_alloc-InRam p calls = alloc_fd (fd_sized p.ctrlmode) p calls refl
