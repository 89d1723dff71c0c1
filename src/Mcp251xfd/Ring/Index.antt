-- ===== src/Mcp251xfd/Ring/Index.antt =====
-- Where the counters of a ring point (the helpers at the end of mcp251xfd.h).
use yocto_layers.Common.{
  ℕ, ◌+◌, ◌-◌, ◌%◌, ◌*◌, ◌/◌, ◌<◌, ◌⊎◌, inl, inr, leb, if◌then◌else◌, ◌^◌, ◌≤◌, bit_and, ◌≡◌, ap,
  ◌∙◌, sub32, arith,
}
use yocto_layers.Common.Fields.{and_mask}
use native.Mathlib.Nat.{div-add-mod, le-div_iff_mul-le, div-lt_iff_lt-mul, mod-lt}
use yocto_layers.Mcp251xfd.State.{TxRing}
use yocto_layers.Mcp251xfd.Ring.{slot, get_tx_free}

-- In a ring of `2 ^ k` objects, at least 1 and at most 128, the slot of a counter is its remainder by
-- the size.
pub slot-eq-mod :
    (k counter obj_num : ℕ)
    → obj_num ≡ 2 ^ k
    → 1 ≤ obj_num
    → obj_num ≤ 128
    → slot counter obj_num ≡ counter % obj_num
unfolding slot
slot-eq-mod k counter obj_num e lo hi =
    let m : sub32 obj_num 1 ≡ 2 ^ k - 1 = omega arith in
    let v : bit_and counter (sub32 obj_num 1) ≡ counter % obj_num =
      ap (bit_and counter) m ∙ and_mask k counter ∙ ap (λ (t : ℕ). counter % t) (omega arith) in
    omega (arith, v)

-- In a FIFO of at most 128 objects, of which no more than all are in flight, the free objects and
-- those in flight make up the FIFO.
pub get_tx_free_lem :
    (ring : TxRing)
    → ring.obj_num ≤ 128
    → sub32 ring.head ring.tail ≤ ring.obj_num
    → get_tx_free ring + sub32 ring.head ring.tail ≡ ring.obj_num
unfolding get_tx_free
get_tx_free_lem ring small h = omega arith

-- A counter within one round past `head` is in the round of `head` or in the next.
counter_round :
    (n head c : ℕ) → 1 ≤ n → head < c → c ≤ head + n → (c / n ≡ head / n) ⊎ (c / n ≡ head / n + 1)
counter_round n head c pos lo hi =
    let low : head / n ≤ c / n = (le-div_iff_mul-le pos).1 (omega (arith, div-add-mod head n)) in
    let high : c / n < head / n + 2 =
      (div-lt_iff_lt-mul pos).1 (omega (arith, div-add-mod head n, mod-lt head pos)) in
    ground (arith, low, high)

-- The counter that `round_down(head, n) + chip` and its correction by a round stand for.
pub next_counter :
    (n head c : ℕ)
    → 1 ≤ n
    → head < c
    → c ≤ head + n
    → (if leb (head / n * n + c % n) head then head / n * n + c % n + n else head / n * n + c % n)
      ≡ c
next_counter n head c pos lo hi = elim (counter_round n head c pos lo hi) [
  | inl e ↦
      ground (arith, ap (λ (t : ℕ). t * n) e, div-add-mod c n, div-add-mod head n, mod-lt head pos)
  | inr e ↦
      ground (arith, ap (λ (t : ℕ). t * n) e, div-add-mod c n, div-add-mod head n, mod-lt c pos)
]
