-- ===== src/Mcp251xfd/Flow/Wakes.antt =====
-- The network stack's transmit queue, which mcp251xfd_start_xmit stops and mcp251xfd_handle_tefif wakes.
use yocto_layers.Common.{
  ℕ, ◌+◌, ◌^◌, ◌≤◌, ◌≡◌, refl, ◌⊎◌, inl, inr, Bool, true, false, not, List, [], ◌∷◌, leb, ltb, ◌==◌,
  sub32, u32, arith,
}
use yocto_layers.Mcp251xfd.Monad.{Env, Drv, M, when, tell, pure}
use yocto_layers.Mcp251xfd.State.{
  CanFrame, Call, Priv, TxRing, netif_start_queue, netif_stop_queue, netif_wake_queue,
  can_dropped_invalid_skb,
}
use yocto_layers.Mcp251xfd.Post.{
  Ends, returns, then-Ends, attempt-call-Ends, OnSuccess, success-OnSuccess, at_result,
  after-OnSuccess, next-OnSuccess, if-OnSuccess,
}
use yocto_layers.Mcp251xfd.Ring.{get_tx_free}
use yocto_layers.Mcp251xfd.Tef.{
  tefif_loop, tef_ring_update, tef_objs, tef_advance, ecc_tefif_successful, handle_tefif,
}
use yocto_layers.Mcp251xfd.Tef.Progress.{AnyError}
use yocto_layers.Mcp251xfd.Tx.{tx_busy, tx_load, start_xmit}
use yocto_layers.Mcp251xfd.Setup.{ring_init}
use yocto_layers.Mcp251xfd.Flow.Refines.{Reach-After, ring_init-Stands}
use yocto_layers.Mcp251xfd.Flow.{Queue, meanwhile, Stands, Step, xmit, reap, Reach, start, later}

-- Whether the stack may call mcp251xfd_start_xmit, after the calls made so far.
abbrev pub running : List Call → Bool
running [] = false
running (netif_start_queue ∷ cs) = true
running (netif_wake_queue ∷ cs) = true
running (netif_stop_queue ∷ cs) = false
running (_ ∷ cs) = running cs

-- No object of the ring is free, in either of the ways in which the driver looks at it.
abbrev Taken : TxRing → Type 0
Taken ring = (get_tx_free ring ≡ 0) ⊎ (ring.obj_num ≤ sub32 ring.head ring.tail)

-- The queue is stopped only while the ring is full.
abbrev Prompt : Drv → Type 0
Prompt t = running t.calls ≡ false → Taken t.priv.tx

not_zero : (n : ℕ) → not (n == 0) ≡ false → n ≡ 0
not_zero n h = ground arith

module _ ⦃env : Env⦄ where
  woken :
      (free : Bool) (s : Drv)
      → (free ≡ false → Taken s.priv.tx)
      → OnSuccess (λ _ t. Prompt t) (when free (tell netif_wake_queue) s)
  woken true s h = λ e. absurd cc
  woken false s h = λ _. h refl

  handle_tefif-Prompt : (s : Drv) → OnSuccess (λ _ t. Prompt t) (handle_tefif s)
  unfolding handle_tefif ecc_tefif_successful
  handle_tefif-Prompt s = after-OnSuccess _ (tef_ring_update s) _ (λ _ t.
      after-OnSuccess _ (tef_objs t) _ (λ objs u.
        after-OnSuccess _ (tefif_loop objs 0 u) _ (λ len v.
          after-OnSuccess _ (when (not (len == 0)) (tef_advance len) v) _
            (λ _ w. woken (not (get_tx_free w.priv.tx == 0)) _ (λ z. inl (not_zero _ z))))))

  -- What the look at the ring finds.
  abbrev Looked : Bool → Drv → Type 0
  Looked true t = Prompt t
  Looked false t = running t.calls ≡ true

  turned_away : (busy : Bool) (t : Drv) → Looked busy t → busy ≡ true → Prompt t
  turned_away true t l e = l
  turned_away false t l e = absurd cc

  let_in : (busy : Bool) (t : Drv) → Looked busy t → busy ≡ false → running t.calls ≡ true
  let_in true t l e = absurd cc
  let_in false t l e = l

  -- There is a free object, and the queue is running where a stopped one means that there is none.
  still_running :
      (s : Drv)
      → (running s.calls ≡ false → get_tx_free s.priv.tx ≡ 0)
      → ltb 0 (get_tx_free s.priv.tx) ≡ true
      → running s.calls ≡ true
  still_running s h f = ground (arith, h, f)

  tx_busy-Looked :
      (m : M (Unit {0})) (s : Drv)
      → (running s.calls ≡ false → get_tx_free s.priv.tx ≡ 0)
      → OnSuccess Looked (tx_busy m s)
  unfolding tx_busy
  tx_busy-Looked m s h =
      if-OnSuccess Looked (ltb 0 (get_tx_free s.priv.tx)) _ _ s (λ f. still_running s h f)
        (λ _. after-OnSuccess Looked (m (record s { calls = netif_stop_queue ∷ s.calls })) _ (λ _ t.
          if-OnSuccess Looked (get_tx_free t.priv.tx == 0) _ _ t (λ z. λ _. inl (ground (arith, z)))
            (λ _. refl)))

  stopped_full :
      (full : Bool) (s : Drv)
      → running s.calls ≡ true
      → (full ≡ true → s.priv.tx.obj_num ≤ sub32 s.priv.tx.head s.priv.tx.tail)
      → Ends (λ _ t. Prompt t) AnyError (when full (tell netif_stop_queue) s)
  stopped_full true s r h = returns (λ _. inr (h refl))
  stopped_full false s r h = returns (λ e. absurd cc)

  tx_load-Prompt :
      (cfd : CanFrame) (fd : Bool) (s : Drv)
      → running s.calls ≡ true
      → Ends (λ _ t. Prompt t) AnyError (tx_load cfd fd s)
  unfolding tx_load
  tx_load-Prompt cfd fd s r =
      let full = leb s.priv.tx.obj_num (sub32 (u32 (s.priv.tx.head + 1)) s.priv.tx.tail) in
      then-Ends (when full (tell netif_stop_queue)) _ _
        (stopped_full full _ r (λ f. ground (arith, f)))
        (λ _ t e. attempt-call-Ends _ (λ _. pure tt) _ (returns e) (λ _. returns e))

  start_xmit-Prompt :
      (m : M (Unit {0})) (cfd : CanFrame) (fd : Bool) (s : Drv)
      → (running s.calls ≡ false → get_tx_free s.priv.tx ≡ 0)
      → OnSuccess (λ _ t. Prompt t) (start_xmit m cfd fd s)
  unfolding start_xmit
  start_xmit-Prompt m cfd fd s h =
      let asked : Drv = record s { calls = can_dropped_invalid_skb cfd ∷ s.calls } in
      if-OnSuccess (λ _ t. Prompt t) (not ((env.answer asked.calls).val == 0)) _ _ asked
        (λ _ e. inl (h e))
        (λ _.
          next-OnSuccess (λ _ t. Prompt t) Looked (tx_busy m asked) _ (tx_busy-Looked m asked h)
            (λ busy t l.
              if-OnSuccess (λ _ t. Prompt t) busy _ _ t (λ b. turned_away busy t l b)
                (λ b.
                  next-OnSuccess (λ _ t. Prompt t) (λ _ t. Prompt t) (tx_load cfd fd t) _
                    (success-OnSuccess (λ _ t. Prompt t)
                      (tx_load-Prompt cfd fd t (let_in busy t l b)))
                    (λ _ _ g. g))))

-- Every object of the ring is in flight.
abbrev pub Full : TxRing → Type 0
Full ring = sub32 ring.head ring.tail ≡ ring.obj_num

module _ (k n : ℕ) (power : n ≡ 2 ^ k) (small : n ≤ 128) where
  Taken-Full :
      {q : Queue} (p : Priv)
      → q.sent + 256 ≤ 2 ^ 32
      → Stands n 0 q p
      → Taken p.tx
      → (get_tx_free p.tx ≡ 0) × Full p.tx
  unfolding get_tx_free
  Taken-Full {q} p room h (inl z) =
      (z, ground (arith, z, room, small, h.num, h.head, h.tail, h.high, h.low, h.mid))
  Taken-Full {q} p room h (inr le) = (
    ground (arith, le, room, small, h.num, h.head, h.tail, h.high, h.low, h.mid),
    ground (arith, le, room, small, h.num, h.head, h.tail, h.high, h.low, h.mid),
  )

  Step-Prompt :
      {s t : Drv} → (running s.calls ≡ false → get_tx_free s.priv.tx ≡ 0) → Step s t → Prompt t
  Step-Prompt {s} h (xmit env reaping fd cfd r e) =
      at_result (λ _ t. Prompt t)
        (start_xmit-Prompt ⦃env = env⦄ (meanwhile reaping ⦃env = env⦄) cfd fd s h) e
  Step-Prompt {s} h (reap env e) = at_result (λ _ t. Prompt t) (handle_tefif-Prompt ⦃env = env⦄ s) e

  Reach-Full :
      (q : Queue) {s : Drv} {c : ℕ} {t : Drv}
      → q.sent + c + 256 ≤ 2 ^ 32
      → Stands n 0 q s.priv
      → running s.calls ≡ true
      → Reach s c t
      → running t.calls ≡ false
      → (get_tx_free t.priv.tx ≡ 0) × Full t.priv.tx
  Reach-Full q far h g start stopped = absurd cc
  Reach-Full q {t = t} far h g (later {k = c} r st) stopped =
      let before = Reach-Full q {c = c} (omega (arith, far)) h g r in
      let a = Reach-After k n power small q {c = c + 1} far h (later r st) in
      Taken-Full t.priv (omega (arith, a.bound, far)) a.stands
        (Step-Prompt (λ e. (before e).0) st stopped)

-- From freshly initialised rings whose TX FIFO has a power of two of objects, at most 128, and a queue
-- that is running, after every history of successful calls of the transmit routine and the TEF handler,
-- whatever the chip and the kernel answer and with the handler between the two looks of the transmit
-- routine or not, the queue of the network stack is stopped only if every object of the FIFO is in
-- flight: it is woken, or started again, before it could stay stopped beside a free object. This holds as
-- long as the number of calls does not bring the counters to their last 256 values.
pub ring_init-Full :
    (k : ℕ) (p : Priv) (calls : List Call) {c : ℕ} {t : Drv}
    → p.tx.obj_num ≡ 2 ^ k
    → p.tx.obj_num ≤ 128
    → c + 256 ≤ 2 ^ 32
    → running calls ≡ true
    → Reach (record { priv = ring_init p; calls = calls }) c t
    → running t.calls ≡ false
    → Full t.priv.tx
ring_init-Full k p calls power small far up r stopped =
    (Reach-Full k p.tx.obj_num power small (record { sent = 0; done = 0 }) (omega (arith, far))
      (ring_init-Stands p) up r stopped).1
