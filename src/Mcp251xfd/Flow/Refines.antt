-- ===== src/Mcp251xfd/Flow/Refines.antt =====
-- Any interleaving of the two routines refines the bounded queue.
use yocto_layers.Common.{ℕ, ◌+◌, ◌^◌, ◌≤◌, ◌≡◌, refl, List, arith}
use yocto_layers.Mcp251xfd.Monad.{Drv}
use yocto_layers.Mcp251xfd.State.{Priv, Call}
use yocto_layers.Mcp251xfd.Post.{returned}
use yocto_layers.Mcp251xfd.Setup.{ring_init, init_tef_ring, init_tx_ring}
use yocto_layers.Mcp251xfd.Flow.{
  Queue, Moves, rest, move, Stands, Step, xmit, reap, Reach, start, later, After,
}
use yocto_layers.Mcp251xfd.Flow.Send.{Moved, start_xmit-Moved, handle_tefif-Moved}

Moves-append : {n : ℕ} {q r s : Queue} → Moves n q r → Moves n r s → Moves n q s
Moves-append m rest = m
Moves-append m (move l x) = move (Moves-append m l) x

module _ (k n : ℕ) (power : n ≡ 2 ^ k) (small : n ≤ 128) where
  Step-Moved :
      (q : Queue) (room : q.sent + 256 ≤ 2 ^ 32) {s t : Drv}
      → Stands n 0 q s.priv
      → Step s t
      → Moved k n power small q room 1 t.priv
  Step-Moved q room {s} h (xmit env reaping fd cfd r e) =
      returned (λ r u. Moved k n power small q room 1 u.priv)
        (start_xmit-Moved k n power small q room ⦃env = env⦄ reaping fd cfd s h) e
  Step-Moved q room {s} h (reap env e) =
      let m =
        returned (λ r u. Moved k n power small q room 0 u.priv)
          (handle_tefif-Moved k n power small q room ⦃env = env⦄ s h) e in
      record { now = m.now; stands = m.stands; moves = m.moves; bound = omega (arith, m.bound) }

  pub Reach-After :
      (q : Queue) {s : Drv} {c : ℕ} {t : Drv}
      → q.sent + c + 256 ≤ 2 ^ 32
      → Stands n 0 q s.priv
      → Reach s c t
      → After n q c t.priv
  Reach-After q far h start = record { now = q; stands = h; moves = rest; bound = omega arith }
  Reach-After q far h (later {k = c} r st) =
      let a = Reach-After q {c = c} (omega (arith, far)) h r in
      let m = Step-Moved a.now (omega (arith, a.bound, far)) a.stands st in
      record {
        now = m.now;
        stands = m.stands;
        moves = Moves-append a.moves m.moves;
        bound = omega (arith, a.bound, m.bound);
      }

pub ring_init-Stands :
    (p : Priv) → Stands p.tx.obj_num 0 (record { sent = 0; done = 0 }) (ring_init p)
unfolding ring_init init_tef_ring init_tx_ring
ring_init-Stands p = record {
  num = refl;
  head = refl;
  tail = refl;
  tef_tail = refl;
  low = omega arith;
  mid = omega arith;
  high = omega arith;
}

-- From freshly initialised rings whose TX FIFO has a power of two of objects, at most 128, every history
-- of `c` successful calls of the transmit routine and the TEF handler, whatever the chip and the kernel
-- answer and with the handler between the two looks of the transmit routine or not, moves the counters
-- of the rings as a bounded queue may move: a frame is submitted only into a free place, only frames in
-- flight are finished, at most `c` are submitted, and the tails agree. This holds as long as `c` does not
-- bring the counters to their last 256 values.
pub ring_init-Refines :
    (k : ℕ) (p : Priv) (calls : List Call) {c : ℕ} {t : Drv}
    → p.tx.obj_num ≡ 2 ^ k
    → p.tx.obj_num ≤ 128
    → c + 256 ≤ 2 ^ 32
    → Reach (record { priv = ring_init p; calls = calls }) c t
    → After p.tx.obj_num (record { sent = 0; done = 0 }) c t.priv
ring_init-Refines k p calls power small far r =
    Reach-After k p.tx.obj_num power small (record { sent = 0; done = 0 }) (omega (arith, far))
      (ring_init-Stands p) r
