-- ===== src/Mcp251xfd/Rx/Deliver.antt =====
-- The frames that mcp251xfd_handle_rxif_ring hands to the CAN stack.
use native.Mathlib.Nat.{mul-div_cancel}
use yocto_layers.Common.{
  ℕ, zero, suc, ◌+◌, ◌*◌, ◌/◌, ◌^◌, ◌≤◌, ◌<◌, ◌≡◌, ◌≢◌, refl, sym, ap, ◌∙◌, Bool, true, false,
  Option, none, some, List, [], ◌∷◌, ◌++◌, length, length-set, get_or-set_self, ◌==◌, if◌then◌else◌,
  u32, arith,
}
use yocto_layers.Mcp251xfd.Regs
use yocto_layers.Mcp251xfd.Regs.{any_bit}
use yocto_layers.Mcp251xfd.Monad.{Env, Drv, ok, M, raise, ◌>>◌, pure}
use yocto_layers.Mcp251xfd.State.{
  Errno, eilseq, Call, HwRxObj, CanFrame, RxRing, rx_bulk_read, can_rx_offload_queue_sorted,
  alloc_can_skb, alloc_canfd_skb, spi_sync_transfer, reg_read,
}
use yocto_layers.Mcp251xfd.Post.{
  Ends, weaken-Ends, both-Ends, OnSuccess, next-OnSuccess, if-OnSuccess, either-OnSuccess,
  attempt-OnSuccess, called-OnSuccess, when-OnSuccess,
}
use yocto_layers.Mcp251xfd.Ring.{get_rx_len, get_rx_tail, get_rx_linear_len, get_rx_obj_addr}
use yocto_layers.Mcp251xfd.Tef.{release_last}
use yocto_layers.Mcp251xfd.Rx.Drain.{AnyError, handle_rxif_ring-Ends}
use yocto_layers.Mcp251xfd.Rx.{
  rx_ring, put_rx_ring, rx_objs_read, rx_new_head, check_rx_tail, rx_tail_get_from_chip,
  rx_head_get_from_chip, queue_sorted, count_rx_fifo_error, handle_rxif_one, handle_rx_objs,
  rx_obj_read, rx_advance, rx_round, rx_loop, hw_rx_obj_to_skb, rx_ring_update, handle_rxif_ring,
  rx_fuel, no_ring,
}

-- The images of some things, on top of a list with the newest first.
abbrev pub onto {ℓ κ} : {A : Type ℓ} {B : Type κ} → (A → B) → List A → List B → List B
onto f [] ys = ys
onto f (x ∷ xs) ys = onto f xs (f x ∷ ys)

onto_last {ℓ κ} :
    {A : Type ℓ} {B : Type κ} (f : A → B) (xs : List A) (x : A) (ys : List B)
    → onto f (xs ++ x ∷ []) ys ≡ f x ∷ onto f xs ys
onto_last f [] x ys = refl
onto_last f (y ∷ xs) x ys = onto_last f xs x (f y ∷ ys)

-- The frames handed to the stack, with their timestamps, the newest first.
abbrev pub handed : List Call → List (CanFrame × ℕ)
handed [] = []
handed (can_rx_offload_queue_sorted frame ts ∷ cs) = (frame, ts) ∷ handed cs
handed (_ ∷ cs) = handed cs

module _ ⦃env : Env⦄ where
  -- The objects of `m` words that the chip has handed out, the newest first.
  abbrev pub fetched : ℕ → List Call → List HwRxObj
  fetched m [] = []
  fetched m (rx_bulk_read addr words ∷ cs) =
      onto (λ obj. obj)
        (rx_objs_read (words / m) (env.answer (rx_bulk_read addr words ∷ cs)).rx_objs)
        (fetched m cs)
  fetched m (_ ∷ cs) = fetched m cs

  abbrev pub frame_of : HwRxObj → CanFrame × ℕ
  frame_of obj = (hw_rx_obj_to_skb env.dlc2len obj, obj.ts)

  -- Since `s`, objects have been fetched, in order, of which `pend` are still to be handed on.
  abbrev During : ℕ → Drv → List HwRxObj → Drv → Type 0
  During m s pend t =
      (objs : List HwRxObj) × (fetched m t.calls
        ≡ onto (λ obj. obj) pend (onto (λ obj. obj) objs (fetched m s.calls)))
      × (handed t.calls ≡ onto frame_of objs (handed s.calls))

  -- The objects fetched since `s` are the frames handed to the stack since then, in the same order.
  abbrev pub Delivers : ℕ → Drv → Drv → Type 0
  Delivers m s t =
      (objs : List HwRxObj) × (fetched m t.calls ≡ onto (λ obj. obj) objs (fetched m s.calls))
      × (handed t.calls ≡ onto frame_of objs (handed s.calls))

-- The allocation of a frame never fails.
abbrev pub Allocates : Env → Type 0
Allocates env =
    (b : Bool) (cs : List Call)
    → (env.answer ((if b then alloc_canfd_skb else alloc_can_skb) ∷ cs)).err ≡ none

words_lem : (m len : ℕ) → m ≢ 0 → len * (4 * m) / 4 / m ≡ len
words_lem m len nz =
    let e : len * (4 * m) ≡ len * m * 4 = grind arith in
    ap (λ (t : ℕ). t / 4 / m) e
    ∙ ap (λ (t : ℕ). t / m) (mul-div_cancel (len * m) {n = 4} (omega arith))
    ∙ mul-div_cancel len {n = m} (omega (arith, nz))

module _ (n m : ℕ) (nz : m ≢ 0) ⦃env : Env⦄ (allocates : Allocates env) (s : Drv) where
  -- The ring is there, with objects of `m` words, and `pend` is still to be handed on.
  abbrev Going : List HwRxObj → Drv → Type 0
  Going pend t = (n < length t.priv.rx) × ((rx_ring n t.priv).obj_size ≡ 4 * m) × During m s pend t

  counted :
      (y : Option Errno) (pend : List HwRxObj) (t : Drv)
      → Going pend t
      → OnSuccess
          (λ _ u. Going pend u)
          ((elim y as (λ _. M (Unit {0})) [ none ↦ pure tt | some _ ↦ count_rx_fifo_error ]) t)
  counted none pend t g = g
  counted (some e) pend t g = g

  queue_sorted-Going :
      (obj : HwRxObj) (pend : List HwRxObj) (t : Drv)
      → Going (obj ∷ pend) t
      → OnSuccess (λ _ u. Going pend u) (queue_sorted (frame_of obj).0 obj.ts t)
  unfolding queue_sorted
  queue_sorted-Going obj pend t (there, size, (objs, f, h)) =
      let f' =
        f ∙ ap (onto (λ o. o) pend) (sym (onto_last (λ o. o) objs obj (fetched m s.calls))) in
      let h' =
        ap (λ (l : List (CanFrame × ℕ)). frame_of obj ∷ l) h
        ∙ sym (onto_last frame_of objs obj (handed s.calls)) in
      attempt-OnSuccess (λ _ u. Going pend u) (can_rx_offload_queue_sorted (frame_of obj).0 obj.ts)
        _ t (λ y e. counted y pend _ (there, size, (objs ++ obj ∷ [], f', h')))

  -- An allocation hands out nothing and hands on nothing.
  allocated :
      (b : Bool) (pend : List HwRxObj) (t : Drv)
      → Going pend t
      → Going pend (record t { calls = (if b then alloc_canfd_skb else alloc_can_skb) ∷ t.calls })
  allocated true pend t g = g
  allocated false pend t g = g

  handle_rxif_one-Going :
      (obj : HwRxObj) (pend : List HwRxObj) (t : Drv)
      → Going (obj ∷ pend) t
      → OnSuccess (λ _ u. Going pend u) (handle_rxif_one obj t)
  unfolding handle_rxif_one
  handle_rxif_one-Going obj pend t g =
      let fd = any_bit obj.flags Regs.obj_flags_fdf in
      attempt-OnSuccess (λ _ u. Going pend u) (if fd then alloc_canfd_skb else alloc_can_skb) _ t
        (λ y e.
          rw (sym e ∙ allocates fd t.calls)
            (queue_sorted-Going obj pend _ (allocated fd (obj ∷ pend) t g)))

  handle_rx_objs-Going :
      (pend : List HwRxObj) (t : Drv)
      → Going pend t
      → OnSuccess (λ _ u. Going [] u) (handle_rx_objs pend t)
  unfolding handle_rx_objs
  handle_rx_objs-Going [] t g = g
  handle_rx_objs-Going (obj ∷ pend) t g =
      next-OnSuccess (λ _ u. Going [] u) (λ _ u. Going pend u) (handle_rxif_one obj t) _
        (handle_rxif_one-Going obj pend t g) (λ _ u h. handle_rx_objs-Going pend u h)

  rx_obj_read-Going :
      (offset len : ℕ) (t : Drv)
      → Going [] t
      → OnSuccess (λ pend u. Going pend u) (rx_obj_read (rx_ring n t.priv) offset len t)
  unfolding rx_obj_read
  rx_obj_read-Going offset len t (there, size, (objs, f, h)) =
      let ring = rx_ring n t.priv in
      let e : len * ring.obj_size / 4 / m ≡ len =
        ap (λ (k : ℕ). len * k / 4 / m) size ∙ words_lem m len nz in
      let words = len * ring.obj_size / 4 in
      let read =
        (env.answer (rx_bulk_read (get_rx_obj_addr ring offset) words ∷ t.calls)).rx_objs in
      let f' =
        ap (λ (k : ℕ). onto (λ (o : HwRxObj). o) (rx_objs_read k read) (fetched m t.calls)) e
        ∙ ap (onto (λ (o : HwRxObj). o) (rx_objs_read len read)) f in
      called-OnSuccess (λ pend u. Going pend u)
        (rx_bulk_read (get_rx_obj_addr ring offset) (len * ring.obj_size / 4)) _ t
        (there, size, (objs, f', h))

  -- A ring put back with the same size of objects.
  put_back :
      (ring : RxRing) (t : Drv)
      → ring.obj_size ≡ 4 * m
      → Going [] t
      → Going [] (record t { priv = put_rx_ring n ring t.priv })
  put_back ring t size g = (
    omega (arith, length-set t.priv.rx n ring, g.0),
    ap (λ (r : RxRing). r.obj_size) (get_or-set_self t.priv.rx n ring no_ring g.0) ∙ size,
    g.2,
  )

  rx_advance-Going :
      (len : ℕ) (t : Drv) → Going [] t → OnSuccess (λ _ u. Going [] u) (rx_advance n len t)
  unfolding rx_advance
  rx_advance-Going len t g =
      let ring = rx_ring n t.priv in
      called-OnSuccess (λ _ u. Going [] u) _ _ t
        (put_back (record ring { tail = u32 (ring.tail + len) })
          (record t {
            calls = spi_sync_transfer ring.uinc_buf (release_last len ring.uinc_xfer) ∷ t.calls;
          })
          g.1 g)

  rx_round-Going :
      (len : ℕ) (t : Drv) → Going [] t → OnSuccess (λ _ u. Going [] u) (rx_round n len t)
  unfolding rx_round
  rx_round-Going len t g =
      let ring = rx_ring n t.priv in
      next-OnSuccess (λ _ u. Going [] u) (λ pend u. Going pend u)
        (rx_obj_read ring (get_rx_tail ring) len t) _ (rx_obj_read-Going (get_rx_tail ring) len t g)
        (λ pend u h.
          next-OnSuccess (λ _ v. Going [] v) (λ _ v. Going [] v) (handle_rx_objs pend u) _
            (handle_rx_objs-Going pend u h) (λ _ v i. rx_advance-Going len v i))

  rx_loop-Going :
      (fuel : ℕ) (t : Drv) → Going [] t → OnSuccess (λ _ u. Going [] u) (rx_loop fuel n t)
  unfolding rx_loop
  rx_loop-Going zero t g = tt
  rx_loop-Going (suc fuel) t g =
      let len = get_rx_linear_len (rx_ring n t.priv) in
      either-OnSuccess (λ _ u. Going [] u) (len == 0) (ok tt t)
        ((rx_round n len >> rx_loop fuel n) t) g
        (next-OnSuccess (λ _ u. Going [] u) (λ _ u. Going [] u) (rx_round n len t) _
          (rx_round-Going len t g) (λ _ u h. rx_loop-Going fuel u h))

  check_rx_tail-Going :
      (ring : RxRing) (t : Drv) → Going [] t → OnSuccess (λ _ u. Going [] u) (check_rx_tail ring t)
  unfolding check_rx_tail rx_tail_get_from_chip
  check_rx_tail-Going ring t g =
      when-OnSuccess (λ u. Going [] u) env.sanity _ t g
        (next-OnSuccess (λ _ u. Going [] u) (λ _ u. Going [] u) (rx_tail_get_from_chip ring t) _
          (called-OnSuccess (λ _ u. Going [] u) (reg_read (Regs.fifoua ring.fifo_nr)) _ t g)
          (λ chip u h.
            if-OnSuccess (λ _ v. Going [] v) (chip == get_rx_tail ring) (pure tt) (raise eilseq) u
              (λ _. h) (λ _. tt)))

  rx_ring_update-Going : (t : Drv) → Going [] t → OnSuccess (λ _ u. Going [] u) (rx_ring_update n t)
  unfolding rx_ring_update rx_head_get_from_chip
  rx_ring_update-Going t g =
      let old = rx_ring n t.priv in
      next-OnSuccess (λ _ u. Going [] u) (λ _ u. Going [] u × (u.priv.rx ≡ t.priv.rx))
        (rx_head_get_from_chip old t) _
        (called-OnSuccess (λ _ u. Going [] u × (u.priv.rx ≡ t.priv.rx))
          (reg_read (Regs.fifosta old.fifo_nr)) _ t (g, refl))
        (λ chip u h.
          let ring = record old { head = rx_new_head old chip } in
          check_rx_tail-Going ring (record u { priv = put_rx_ring n ring u.priv })
            (put_back ring u g.1 h.0))

  handle_rxif_ring-Going :
      (t : Drv) → Going [] t → OnSuccess (λ _ u. Going [] u) (handle_rxif_ring n t)
  unfolding handle_rxif_ring
  handle_rxif_ring-Going t g =
      next-OnSuccess (λ _ u. Going [] u) (λ _ u. Going [] u) (rx_ring_update n t) _
        (rx_ring_update-Going t g) (λ _ u h. rx_loop-Going rx_fuel u h)

-- For a ring that is there, of `2 ^ k` objects, at most 128, each of `m` words, with a tail below
-- 2 ^ 32, and where the allocation of frames never fails, the handler comes to an end whatever the chip
-- answers, and when it succeeds, nothing is left to read, and the objects that it has read are, one by
-- one and in the same order, the frames that it has handed to can_rx_offload_queue_sorted.
pub handle_rxif_ring-Delivers :
    (k n m : ℕ) ⦃env : Env⦄ (s : Drv)
    → Allocates env
    → n < length s.priv.rx
    → (rx_ring n s.priv).tail < 2 ^ 32
    → (rx_ring n s.priv).obj_num ≡ 2 ^ k
    → (rx_ring n s.priv).obj_num ≤ 128
    → (rx_ring n s.priv).obj_size ≡ 4 * m
    → m ≢ 0
    → Ends
        (λ _ t. (get_rx_len (rx_ring n t.priv) ≡ 0) × Delivers m s t)
        AnyError
        (handle_rxif_ring n s)
handle_rxif_ring-Delivers k n m s allocates there word power small size nz =
    weaken-Ends
      (both-Ends (λ _ t. Going n m nz allocates s [] t)
        (handle_rxif_ring-Ends k n s there word power small)
        (handle_rxif_ring-Going n m nz allocates s s (there, size, ([], refl, refl))))
      (λ _ t h. (h.0, h.1.2)) (λ _ _ _. tt)
