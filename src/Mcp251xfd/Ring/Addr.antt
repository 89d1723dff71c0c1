-- ===== src/Mcp251xfd/Ring/Addr.antt =====
-- Which TX object an address of the chip's RAM lies in.
use yocto_layers.Common.{ℕ, ◌+◌, ◌-◌, ◌*◌, ◌/◌, ◌^◌, ◌≤◌, ◌<◌, ◌≡◌, ◌↔◌, some, u8, arith}
use native.Mathlib.Nat.{le-div_iff_mul-le, div-lt_iff_lt-mul, mul-le-mul_right, mul_comm}
use yocto_layers.Mcp251xfd.State.{TxRing}
use yocto_layers.Mcp251xfd.Ring.{get_tx_obj_addr, get_tx_nr_by_addr}

-- Object `n` reaches from its address to the next one's.
abbrev pub InObject : TxRing → ℕ → ℕ → Type 0
InObject ring addr n =
    (n < ring.obj_num)
    × (ring.base + n * ring.obj_size ≤ addr)
    × (addr < ring.base + (n + 1) * ring.obj_size)

module _ (ring : TxRing) (some_size : 1 ≤ ring.obj_size) (few : ring.obj_num ≤ 128)
    (room : ring.base + ring.obj_num * ring.obj_size < 2 ^ 16) where
  first_addr : get_tx_obj_addr ring 0 ≡ ring.base
  unfolding get_tx_obj_addr
  first_addr = omega (arith, room)

  end_addr : get_tx_obj_addr ring ring.obj_num ≡ ring.base + ring.obj_num * ring.obj_size
  unfolding get_tx_obj_addr
  end_addr = omega (arith, room, mul_comm ring.obj_size ring.obj_num)

  -- The objects before number `m` end where number `m` starts.
  before :
      (addr m : ℕ)
      → ((addr - ring.base) / ring.obj_size < m) ↔ (addr - ring.base < m * ring.obj_size)
  before addr m = div-lt_iff_lt-mul some_size

  from_number : (addr n : ℕ) → get_tx_nr_by_addr ring addr ≡ some n → InObject ring addr n
  unfolding get_tx_nr_by_addr
  from_number addr n h =
      let q = (addr - ring.base) / ring.obj_size in
      let (inside, e) = found h in
      let low : q < ring.obj_num = (before addr ring.obj_num).1 (omega (arith, inside)) in
      let same : q ≡ n = omega (arith, e, low, few) in
      let start : n * ring.obj_size ≤ addr - ring.base =
        (le-div_iff_mul-le {x = n} some_size).0 (omega (arith, same)) in
      let end : addr - ring.base < (n + 1) * ring.obj_size =
        (before addr (n + 1)).0 (omega (arith, same)) in
      (omega (arith, same, low), omega (arith, inside, start), omega (arith, inside, end))
    where
      found :
          get_tx_nr_by_addr ring addr ≡ some n
          → ((ring.base ≤ addr) × (addr < ring.base + ring.obj_num * ring.obj_size))
            × (u8 ((addr - ring.base) / ring.obj_size) ≡ n)
      found h = ground (arith, first_addr, end_addr, h)

  to_number : (addr n : ℕ) → InObject ring addr n → get_tx_nr_by_addr ring addr ≡ some n
  unfolding get_tx_nr_by_addr
  to_number addr n h =
      let q = (addr - ring.base) / ring.obj_size in
      let lower : n ≤ q = (le-div_iff_mul-le {x = n} some_size).1 (omega (arith, h.1)) in
      let upper : q < n + 1 = (before addr (n + 1)).1 (omega (arith, h.1, h.2)) in
      let whole : (n + 1) * ring.obj_size ≤ ring.obj_num * ring.obj_size =
        mul-le-mul_right ring.obj_size (omega (arith, h.0)) in
      let inside : (ring.base ≤ addr) × (addr < ring.base + ring.obj_num * ring.obj_size) =
        (omega (arith, h.1), omega (arith, h.2, whole)) in
      ground (arith, first_addr, end_addr, inside, lower, upper, few, h.0)

  -- In a TX FIFO of at most 128 objects of at least one byte, which ends below 2 ^ 16, an address belongs to
  -- number `n` exactly when it lies in object `n`.
  pub get_tx_nr_by_addr_lem :
      (addr n : ℕ) → (get_tx_nr_by_addr ring addr ≡ some n) ↔ InObject ring addr n
  get_tx_nr_by_addr_lem addr n = (from_number addr n, to_number addr n)
