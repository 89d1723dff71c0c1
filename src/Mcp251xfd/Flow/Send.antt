-- ===== src/Mcp251xfd/Flow/Send.antt =====
-- mcp251xfd_start_xmit submits a frame to the queue.
use yocto_layers.Common.{
  ℕ, ◌+◌, ◌^◌, ◌≤◌, ◌<◌, ◌≡◌, ◌≢◌, Bool, true, false, not, List, ◌∷◌, ltb, leb, ◌==◌, u32, sub32,
  arith,
}
use yocto_layers.Mcp251xfd.Monad.{Env, Drv, when, tell, pure}
use yocto_layers.Mcp251xfd.State.{TxObj, CanFrame, Priv, netif_stop_queue, can_dropped_invalid_skb}
use yocto_layers.Mcp251xfd.Post.{
  Ends, returns, weaken-Ends, bind-Ends, then-Ends, choose-Ends, when-Ends, attempt-call-Ends,
}
use yocto_layers.Mcp251xfd.Ring.{get_tx_free}
use yocto_layers.Mcp251xfd.Tef.{handle_tefif}
use yocto_layers.Mcp251xfd.Tef.Progress.{AnyError}
use yocto_layers.Mcp251xfd.Tx.{tx_busy, tx_load, start_xmit}
use yocto_layers.Mcp251xfd.Flow.{Queue, Stands, Moves, submit, finish, rest, move, meanwhile}
use yocto_layers.Mcp251xfd.Flow.Reap.{Finished, handle_tefif-Finished}

module _ (k n : ℕ) (power : n ≡ 2 ^ k) (small : n ≤ 128) (q : Queue)
    (room : q.sent + 256 ≤ 2 ^ 32) where
  -- The queue has moved on from `q` to what the counters stand for, by `more` frames at most.
  pub record Moved (more : ℕ) (p : Priv) : Type 0 where
    pub now : Queue
    pub stands : Stands n 0 now p
    pub moves : Moves n q now
    pub bound : now.sent ≤ q.sent + more

  free_lem :
      (r : Queue) (p : Priv)
      → r.sent + 256 ≤ 2 ^ 32
      → Stands n 0 r p
      → get_tx_free p.tx + r.sent ≡ r.done + n
  unfolding get_tx_free
  free_lem r p far h = ground (arith, h.num, h.head, h.tail, h.high, h.low, h.mid)

  stay : (p : Priv) → Stands n 0 q p → Moved 0 p
  stay p h = record { now = q; stands = h; moves = rest; bound = omega arith }

  more : {p : Priv} → Moved 0 p → Moved 1 p
  more m = record {
    now = m.now;
    stands = m.stands;
    moves = m.moves;
    bound = omega (arith, m.bound);
  }

  -- The queue with a free place.
  abbrev HasRoom : {p : Priv} → Moved 0 p → Type 0
  HasRoom m = m.now.sent < m.now.done + n

  has_room : (p : Priv) (m : Moved 0 p) → get_tx_free p.tx ≢ 0 → HasRoom m
  has_room p m free =
      omega (arith, free_lem m.now p (omega (arith, m.bound)) m.stands, m.stands.high, free)

  loaded :
      (p : Priv) (m : Moved 0 p) (objs : List TxObj)
      → HasRoom m
      → Moved 1 (record p { tx = record (p.tx) { obj = objs; head = u32 (p.tx.head + 1) } })
  loaded p m objs free = record {
    now = record (m.now) { sent = m.now.sent + 1 };
    stands = record {
      num = m.stands.num;
      head = omega (arith, m.stands.head, m.bound);
      tail = m.stands.tail;
      tef_tail = m.stands.tef_tail;
      low = m.stands.low;
      mid = omega (arith, m.stands.mid);
      high = omega (arith, free);
    };
    moves = move m.moves (submit free);
    bound = omega (arith, m.bound);
  }

  module _ ⦃env : Env⦄ where
    reaped : {p : Priv} → Finished k n power small q room p → Moved 0 p
    unfolding Finished
    reaped (len, h, le) = record {
      now = record q { done = q.done + len };
      stands = h;
      moves = move rest (finish len le);
      bound = omega arith;
    }

    meanwhile-Moved :
        (reaping : Bool) (s : Drv)
        → Stands n 0 q s.priv
        → Ends (λ _ t. Moved 0 t.priv) AnyError (meanwhile reaping s)
    unfolding meanwhile
    meanwhile-Moved false s h = returns (stay s.priv h)
    meanwhile-Moved true s h =
        weaken-Ends (handle_tefif-Finished k n power small q room s h) (λ _ t f. reaped f)
          (λ _ _ _. tt)

    tx_load-Moved :
        (cfd : CanFrame) (fd : Bool) (s : Drv) (m : Moved 0 s.priv)
        → HasRoom m
        → Ends (λ _ t. Moved 1 t.priv) AnyError (tx_load cfd fd s)
    unfolding tx_load
    tx_load-Moved cfd fd s m free =
        let full = leb s.priv.tx.obj_num (sub32 (u32 (s.priv.tx.head + 1)) s.priv.tx.tail) in
        let after = loaded s.priv m _ free in
        then-Ends (when full (tell netif_stop_queue)) _ _
          (when-Ends {P = λ _ t. Moved 1 t.priv} {Q = AnyError} full _ _ (λ _. returns after)
            (λ _. after))
          (λ _ t e. attempt-call-Ends _ (λ _. pure tt) _ (returns e) (λ _. returns e))

    -- What the look at the ring finds.
    abbrev Looked : Bool → Drv → Type 0
    Looked busy t = (m : Moved 0 t.priv) × (busy ≡ false → HasRoom m)

    tx_busy-Moved :
        (reaping : Bool) (s : Drv)
        → Stands n 0 q s.priv
        → Ends Looked AnyError (tx_busy (meanwhile reaping) s)
    unfolding tx_busy
    tx_busy-Moved reaping s h =
        choose-Ends (ltb 0 (get_tx_free s.priv.tx)) _ _ s
          (λ some_free.
            returns (stay s.priv h, λ _. has_room s.priv (stay s.priv h) (ground arith)))
          (λ _.
            then-Ends (meanwhile reaping) _ _
              (meanwhile-Moved reaping (record s { calls = netif_stop_queue ∷ s.calls }) h)
              (λ _ t m.
                choose-Ends (get_tx_free t.priv.tx == 0) _ _ t
                  (λ z. returns (m, λ f. absurd (ground arith)))
                  (λ nz. returns (m, λ _. has_room t.priv m (ground arith)))))

    -- Where the queue is in order and not near the end of the counters, the transmit routine, with the
    -- interrupt thread reaping between its two looks or not, comes to an end; when it succeeds the queue
    -- has moved on as it may, by one frame at most.
    pub start_xmit-Moved :
        (reaping fd : Bool) (cfd : CanFrame) (s : Drv)
        → Stands n 0 q s.priv
        → Ends (λ r t. Moved 1 t.priv) AnyError (start_xmit (meanwhile reaping) cfd fd s)
    unfolding start_xmit
    start_xmit-Moved reaping fd cfd s h =
        let asked : Drv = record s { calls = can_dropped_invalid_skb cfd ∷ s.calls } in
        let dropped = (env.answer asked.calls).val in
        choose-Ends (not (dropped == 0)) _ _ asked (λ _. returns (more (stay s.priv h)))
          (λ _.
            bind-Ends (tx_busy (meanwhile reaping)) _ asked (tx_busy-Moved reaping asked h)
              (λ busy t l.
                choose-Ends busy _ _ t (λ b. returns (more l.0))
                  (λ b.
                    then-Ends (tx_load cfd fd) _ t (tx_load-Moved cfd fd t l.0 (l.1 b))
                      (λ _ u g. returns g))))

    pub handle_tefif-Moved :
        (s : Drv) → Stands n 0 q s.priv → Ends (λ _ t. Moved 0 t.priv) AnyError (handle_tefif s)
    handle_tefif-Moved s h =
        weaken-Ends (handle_tefif-Finished k n power small q room s h) (λ _ t f. reaped f)
          (λ _ _ _. tt)
