-- ===== src/Mcp251xfd/Rx/Drain.antt =====
-- The loop of mcp251xfd_handle_rxif_ring.
use mathlib.Core.Path.{subst}
use native.Mathlib.Nat.{mod-lt, one-le-pow}
use yocto_layers.Common.{
  ℕ, zero, suc, ◌+◌, ◌^◌, ◌≤◌, ◌<◌, ◌≡◌, refl, sym, ap, ◌∙◌, List, [], ◌∷◌, length, set, get_or,
  length-set, get_or-set_self, ◌==◌, u32, arith, ==_iff,
}
use yocto_layers.Mcp251xfd.Monad.{Env, Drv, ◌>>◌}
use yocto_layers.Mcp251xfd.State.{Errno, HwRxObj, CanFrame, RxRing}
use yocto_layers.Mcp251xfd.Post.{
  Ends, returns, fails, weaken-Ends, bind-Ends, then-Ends, attempt-call-Ends, called-Ends, if-Ends,
  choose-Ends, when-Ends,
}
use yocto_layers.Mcp251xfd.Ring.{get_rx_len, get_rx_tail, get_rx_linear_len}
use yocto_layers.Mcp251xfd.Ring.Index.{slot-eq-mod}
use yocto_layers.Mcp251xfd.Rx.{
  rx_ring, put_rx_ring, rx_new_head, check_rx_tail, rx_tail_get_from_chip, rx_head_get_from_chip,
  queue_sorted, handle_rxif_one, handle_rx_objs, rx_obj_read, rx_advance, rx_round, rx_loop,
  rx_ring_update, handle_rxif_ring, rx_fuel, no_ring,
}

-- An error of the chip or of the bus, of which nothing is said.
abbrev pub AnyError : Errno → Drv → Type 0
AnyError e t = Unit {0}

-- What leaves the rings as they are.
abbrev SameRings : {A : Type 0} → Drv → A → Drv → Type 0
SameRings s a t = t.priv.rx ≡ s.priv.rx

module _ ⦃env : Env⦄ where
  queue_sorted-rx :
      (frame : CanFrame) (ts : ℕ) (s : Drv) → Ends (SameRings s) AnyError (queue_sorted frame ts s)
  unfolding queue_sorted
  queue_sorted-rx frame ts s = attempt-call-Ends _ _ s (returns refl) (λ e. returns refl)

  handle_rxif_one-rx :
      (obj : HwRxObj) (s : Drv) → Ends (SameRings s) AnyError (handle_rxif_one obj s)
  unfolding handle_rxif_one
  handle_rxif_one-rx obj s = attempt-call-Ends _ _ s (queue_sorted-rx _ _ _) (λ e. returns refl)

  handle_rx_objs-rx :
      (objs : List HwRxObj) (s : Drv) → Ends (SameRings s) AnyError (handle_rx_objs objs s)
  unfolding handle_rx_objs
  handle_rx_objs-rx [] s = returns refl
  handle_rx_objs-rx (obj ∷ objs) s =
      then-Ends (handle_rxif_one obj) (handle_rx_objs objs) s (handle_rxif_one-rx obj s)
        (λ a t e. weaken-Ends (handle_rx_objs-rx objs t) (λ a' t' e'. e' ∙ e) (λ _ _ _. tt))

  rx_obj_read-rx :
      (ring : RxRing) (offset len : ℕ) (s : Drv)
      → Ends (SameRings s) AnyError (rx_obj_read ring offset len s)
  unfolding rx_obj_read
  rx_obj_read-rx ring offset len s = called-Ends _ _ s (λ _. returns refl) (λ _ _. tt)

  abbrev advanced : ℕ → ℕ → List RxRing → List RxRing
  advanced n len rings =
      let ring = get_or rings n no_ring in
      set rings n (record ring { tail = u32 (ring.tail + len) })

  rx_advance-rx :
      (n len : ℕ) (s : Drv)
      → Ends (λ _ t. t.priv.rx ≡ advanced n len s.priv.rx) AnyError (rx_advance n len s)
  unfolding rx_advance
  rx_advance-rx n len s = called-Ends _ _ s (λ _. returns refl) (λ _ _. tt)

  rx_round-rx :
      (n len : ℕ) (s : Drv)
      → Ends (λ _ t. t.priv.rx ≡ advanced n len s.priv.rx) AnyError (rx_round n len s)
  unfolding rx_round
  rx_round-rx n len s =
      let ring = rx_ring n s.priv in
      bind-Ends (rx_obj_read ring (get_rx_tail ring) len)
        (λ objs. handle_rx_objs objs >> rx_advance n len) s
        (rx_obj_read-rx ring (get_rx_tail ring) len s)
        (λ objs t e.
          then-Ends (handle_rx_objs objs) (rx_advance n len) t (handle_rx_objs-rx objs t) (λ _ u f.
            weaken-Ends (rx_advance-rx n len u) (λ _ v g. g ∙ ap (advanced n len) (f ∙ e))
              (λ _ _ _. tt)))

-- A round takes what it has read off the length.
shorter :
    (len : ℕ) (ring : RxRing)
    → len ≡ get_rx_linear_len ring
    → ring.tail < 2 ^ 32
    → get_rx_len (record ring { tail = u32 (ring.tail + len) }) + len ≡ get_rx_len ring
unfolding get_rx_len get_rx_linear_len
shorter len ring e small = ground arith

module _ ⦃env : Env⦄ where
  -- What the loop works on: a ring that is there, with a tail of 32 bits.
  abbrev Ready : ℕ → ℕ → List RxRing → Type 0
  Ready n obj_num rings =
      (n < length rings)
      × ((get_or rings n no_ring).tail < 2 ^ 32)
      × ((get_or rings n no_ring).obj_num ≡ obj_num)

  abbrev pub Drained : ℕ → ℕ → List RxRing → Type 0
  Drained n obj_num rings =
      (get_rx_linear_len (get_or rings n no_ring) ≡ 0)
      × ((get_or rings n no_ring).obj_num ≡ obj_num)

  advanced-Ready :
      (n len obj_num : ℕ) (rings : List RxRing)
      → len ≡ get_rx_linear_len (get_or rings n no_ring)
      → Ready n obj_num rings
      → Ready n obj_num (advanced n len rings)
        × (get_rx_len (get_or (advanced n len rings) n no_ring) + len
            ≡ get_rx_len (get_or rings n no_ring))
  advanced-Ready n len obj_num rings e r =
      let ring : RxRing = get_or rings n no_ring in
      let v : RxRing = record ring { tail = u32 (ring.tail + len) } in
      let g : get_or (set rings n v) n no_ring ≡ v = get_or-set_self rings n v no_ring r.0 in
      let small : u32 (ring.tail + len) < 2 ^ 32 = omega arith in
      let bounds : n < length (set rings n v) = omega (arith, length-set rings n v, r.0) in
      let word : (get_or (set rings n v) n no_ring).tail < 2 ^ 32 =
        omega (arith, small, ap (λ (x : RxRing). x.tail) g) in
      let size : (get_or (set rings n v) n no_ring).obj_num ≡ obj_num =
        ap (λ (x : RxRing). x.obj_num) g ∙ r.2 in
      let left : get_rx_len (get_or (set rings n v) n no_ring) + len ≡ get_rx_len ring =
        omega (arith, ap get_rx_len g, shorter len ring e r.1) in
      ((bounds, word, size), left)

  rx_loop_lem :
      (fuel n obj_num : ℕ) (s : Drv)
      → Ready n obj_num s.priv.rx
      → get_rx_len (rx_ring n s.priv) < fuel
      → Ends (λ _ t. Drained n obj_num t.priv.rx) AnyError (rx_loop fuel n s)
  unfolding rx_loop
  rx_loop_lem zero n obj_num s r h = absurd (omega arith)
  rx_loop_lem (suc fuel) n obj_num s r h =
      let len = get_rx_linear_len (rx_ring n s.priv) in
      if-Ends (len == 0) (λ empty. returns ((==_iff len 0).0 empty, r.2))
        (λ more. then-Ends (rx_round n len) (rx_loop fuel n) s (rx_round-rx n len s) (λ _ t moved.
          let next = advanced-Ready n len obj_num s.priv.rx refl r in
          let ready : Ready n obj_num t.priv.rx = subst (Ready n obj_num) (sym moved) next.0 in
          let fewer : get_rx_len (rx_ring n t.priv) < fuel = ground (
            arith,
            more,
            h,
            next.1,
            ap (λ (x : List RxRing). get_rx_len (get_or x n no_ring)) moved,
          ) in
          rx_loop_lem fuel n obj_num t ready fewer))

  check_rx_tail-rx : (ring : RxRing) (s : Drv) → Ends (SameRings s) AnyError (check_rx_tail ring s)
  unfolding check_rx_tail rx_tail_get_from_chip
  check_rx_tail-rx ring s =
      when-Ends env.sanity _ s
        (λ _.
          bind-Ends (rx_tail_get_from_chip ring) _ s
            (called-Ends {R = SameRings s} _ _ s (λ _. returns refl) (λ _ _. tt))
            (λ chip t e.
              choose-Ends (chip == get_rx_tail ring) _ _ t (λ _. returns e) (λ _. fails tt)))
        (λ _. refl)

  rx_head-rx :
      (ring : RxRing) (s : Drv) → Ends (SameRings s) AnyError (rx_head_get_from_chip ring s)
  unfolding rx_head_get_from_chip
  rx_head-rx ring s = called-Ends _ _ s (λ _. returns refl) (λ _ _. tt)

  rx_ring_update-Ready :
      (n obj_num : ℕ) (s : Drv)
      → Ready n obj_num s.priv.rx
      → Ends (λ _ t. Ready n obj_num t.priv.rx) AnyError (rx_ring_update n s)
  unfolding rx_ring_update
  rx_ring_update-Ready n obj_num s r =
      let old : RxRing = rx_ring n s.priv in
      bind-Ends (rx_head_get_from_chip old) _ s (rx_head-rx old s) (λ chip t e.
        let ring : RxRing = record old { head = rx_new_head old chip } in
        let put : List RxRing = set t.priv.rx n ring in
        let there : n < length t.priv.rx =
          omega (arith, r.0, ap (λ (x : List RxRing). length x) e) in
        let g : get_or put n no_ring ≡ ring = get_or-set_self t.priv.rx n ring no_ring there in
        let bounds : n < length put = omega (arith, length-set t.priv.rx n ring, there) in
        let word : (get_or put n no_ring).tail < 2 ^ 32 =
          omega (arith, r.1, ap (λ (x : RxRing). x.tail) g) in
        let size : (get_or put n no_ring).obj_num ≡ obj_num =
          ap (λ (x : RxRing). x.obj_num) g ∙ r.2 in
        weaken-Ends (check_rx_tail-rx ring (record t { priv = put_rx_ring n ring t.priv }))
          (λ _ u f. subst (Ready n obj_num) (sym f) (bounds, word, size)) (λ _ _ _. tt))

  len-lt : (ring : RxRing) → get_rx_len ring < rx_fuel
  unfolding get_rx_len
  len-lt ring = omega arith

  drained-empty :
      (k : ℕ) (ring : RxRing)
      → ring.obj_num ≡ 2 ^ k
      → ring.obj_num ≤ 128
      → get_rx_linear_len ring ≡ 0
      → get_rx_len ring ≡ 0
  unfolding get_rx_linear_len get_rx_tail
  drained-empty k ring e small h =
      let pos : 1 ≤ ring.obj_num = omega (arith, e, one-le-pow k 2) in
      ground (arith, h, slot-eq-mod k ring.tail ring.obj_num e pos small, mod-lt ring.tail pos)

  -- For a ring that is there, of `2 ^ k` objects, at most 128, with a tail below 2 ^ 32, the handler
  -- comes to an end, whatever the chip answers: with an error, or with an empty ring.
  pub handle_rxif_ring-Ends :
      (k n : ℕ) (s : Drv)
      → n < length s.priv.rx
      → (rx_ring n s.priv).tail < 2 ^ 32
      → (rx_ring n s.priv).obj_num ≡ 2 ^ k
      → (rx_ring n s.priv).obj_num ≤ 128
      → Ends (λ _ t. get_rx_len (rx_ring n t.priv) ≡ 0) AnyError (handle_rxif_ring n s)
  unfolding handle_rxif_ring
  handle_rxif_ring-Ends k n s there word pow small =
      let size = (rx_ring n s.priv).obj_num in
      then-Ends (rx_ring_update n) (rx_loop rx_fuel n) s
        (rx_ring_update-Ready n size s (there, word, refl))
        (λ _ t r.
          weaken-Ends (rx_loop_lem rx_fuel n size t r (len-lt (rx_ring n t.priv)))
            (λ _ u d.
              let ring : RxRing = rx_ring n u.priv in
              drained-empty k ring (d.1 ∙ pow) (omega (arith, d.1, small)) d.0)
            (λ _ _ _. tt))
