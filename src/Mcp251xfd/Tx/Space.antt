-- ===== src/Mcp251xfd/Tx/Space.antt =====
-- The objects in flight around mcp251xfd_start_xmit.
use yocto_layers.Common.{
  ℕ, ◌+◌, ◌^◌, ◌≤◌, ◌<◌, ◌≡◌, ◌≢◌, Bool, true, false, not, List, ◌∷◌, ltb, leb, ◌==◌, ==_iff, sub32,
  u32, arith,
}
use yocto_layers.Mcp251xfd.Monad.{Env, Drv, M, when, tell, pure}
use yocto_layers.Mcp251xfd.State.{
  Errno, TxObj, CanFrame, TxRing, netif_stop_queue, can_dropped_invalid_skb,
}
use yocto_layers.Mcp251xfd.Post.{
  Ends, returns, bind-Ends, then-Ends, choose-Ends, when-Ends, attempt-call-Ends,
}
use yocto_layers.Mcp251xfd.Ring.{get_tx_free}
use yocto_layers.Mcp251xfd.Tx.{tx_busy_code, tx_busy, tx_load, start_xmit}

-- At most `n` objects are in flight, in a FIFO of `n`.
abbrev pub Fits : ℕ → TxRing → Type 0
Fits n ring = (ring.obj_num ≡ n) × (ring.tail < 2 ^ 32) × (sub32 ring.head ring.tail ≤ n)

abbrev pub NoError : Errno → Drv → Type 0
NoError e t = ⊥

room :
    (n : ℕ) (ring : TxRing)
    → n ≤ 128
    → Fits n ring
    → get_tx_free ring ≢ 0
    → sub32 ring.head ring.tail < n
unfolding get_tx_free
room n ring small h free = ground arith

-- One more object in flight.
one_more :
    (n : ℕ) (ring : TxRing) (objs : List TxObj)
    → n ≤ 128
    → Fits n ring
    → sub32 ring.head ring.tail < n
    → Fits n (record ring { obj = objs; head = u32 (ring.head + 1) })
one_more n ring objs small h free = (h.0, h.1, ground arith)

module _ (n : ℕ) (small : n ≤ 128) ⦃env : Env⦄ where
  tx_load-Fits :
      (cfd : CanFrame) (fd : Bool) (s : Drv)
      → Fits n s.priv.tx
      → sub32 s.priv.tx.head s.priv.tx.tail < n
      → Ends (λ r t. Fits n t.priv.tx) NoError (tx_load cfd fd s)
  unfolding tx_load
  tx_load-Fits cfd fd s h free =
      let full = leb s.priv.tx.obj_num (sub32 (u32 (s.priv.tx.head + 1)) s.priv.tx.tail) in
      let fits = one_more n s.priv.tx s.priv.tx.obj small h free in
      then-Ends (when full (tell netif_stop_queue)) _ _
        (when-Ends {P = λ _ t. Fits n t.priv.tx} {Q = NoError} full _ _ (λ _. returns fits)
          (λ _. fits))
        (λ _ t e. attempt-call-Ends _ (λ _. pure tt) _ (returns e) (λ _. returns e))

  -- Code that, run after the queue is stopped in state `s`, succeeds and leaves the ring in order.
  abbrev pub Orderly : M (Unit {0}) → Drv → Type 0
  Orderly m s =
      Ends (λ _ t. Fits n t.priv.tx) NoError (m (record s { calls = netif_stop_queue ∷ s.calls }))

  -- What the look at the ring finds, at the moment it returns.
  abbrev Looked : Bool → Drv → Type 0
  Looked busy t =
      Fits n t.priv.tx
      × ((busy ≡ true → get_tx_free t.priv.tx ≡ 0)
          × (busy ≡ false → sub32 t.priv.tx.head t.priv.tx.tail < n))

  tx_busy-Looked :
      (meanwhile : M (Unit {0})) (s : Drv)
      → Orderly meanwhile s
      → Fits n s.priv.tx
      → Ends Looked NoError (tx_busy meanwhile s)
  unfolding tx_busy
  tx_busy-Looked meanwhile s m h =
      choose-Ends (ltb 0 (get_tx_free s.priv.tx)) _ _ s
        (λ some_free.
          returns
            (h, ((λ f. absurd (ground arith)), (λ _. room n s.priv.tx small h (ground arith)))))
        (λ _. then-Ends meanwhile _ _ m (λ _ t g.
          choose-Ends (get_tx_free t.priv.tx == 0) _ _ t
            (λ z. returns (g, ((λ _. (==_iff _ _).0 z), (λ f. absurd (ground arith)))))
            (λ nz.
              returns (
                g,
                ((λ f. absurd (ground arith)), (λ _. room n t.priv.tx small g (ground arith))),
              ))))

  -- With at most `n ≤ 128` objects in flight in a FIFO of `n`, the transmit routine ends without an
  -- error and leaves at most `n` in flight, and it is busy only when the FIFO has no free object, as
  -- long as what the interrupt thread does this time between the two looks at the ring succeeds and
  -- leaves at most `n` in flight.
  pub start_xmit-Fits :
      (meanwhile : M (Unit {0})) (cfd : CanFrame) (fd : Bool) (s : Drv)
      → Orderly meanwhile (record s { calls = can_dropped_invalid_skb cfd ∷ s.calls })
      → Fits n s.priv.tx
      → Ends
          (λ r t. Fits n t.priv.tx × (r ≡ tx_busy_code → get_tx_free t.priv.tx ≡ 0))
          NoError
          (start_xmit meanwhile cfd fd s)
  unfolding start_xmit
  start_xmit-Fits meanwhile cfd fd s m h =
      let asked : Drv = record s { calls = can_dropped_invalid_skb cfd ∷ s.calls } in
      let dropped = (env.answer asked.calls).val in
      choose-Ends (not (dropped == 0)) _ _ asked (λ _. returns (h, λ e. absurd (ground arith)))
        (λ _.
          bind-Ends (tx_busy meanwhile) _ asked (tx_busy-Looked meanwhile asked m h) (λ busy t l.
            choose-Ends busy _ _ t (λ b. returns (l.0, λ _. l.1.0 b))
              (λ b.
                then-Ends (tx_load cfd fd) _ t (tx_load-Fits cfd fd t l.0 (l.1.1 b))
                  (λ _ u g. returns (g, λ e. absurd (ground arith))))))
