-- ===== src/Mcp251xfd/Flow.antt =====
-- The transmit path as a whole: mcp251xfd_start_xmit, called by the network stack, and
-- mcp251xfd_handle_tefif, run by the interrupt thread, share the TX ring. What they share is a bounded
-- queue of frames that are sent and done in order.
pub mod Reads
pub mod Reap
pub mod Send
pub mod Refines
pub mod Wakes
use yocto_layers.Common.{ℕ, ◌+◌, ◌≤◌, ◌<◌, ◌≡◌, Bool, true, false}
use yocto_layers.Mcp251xfd.Monad.{Env, Drv, M, pure, ok}
use yocto_layers.Mcp251xfd.State.{Priv, CanFrame}
use yocto_layers.Mcp251xfd.Tef.{handle_tefif}
use yocto_layers.Mcp251xfd.Tx.{NetdevTx, start_xmit}

-- How many frames have been handed to the chip, and how many of them it is done with.
pub record Queue : Type 0 where
  pub sent : ℕ
  pub done : ℕ

-- What a queue of `n` frames may do.
pub data Move (n : ℕ) (q : Queue) : Queue → Type 0 where
  submit : q.sent < q.done + n → Move n q (record q { sent = q.sent + 1 })
  finish : (k : ℕ) → q.done + k ≤ q.sent → Move n q (record q { done = q.done + k })

pub data Moves (n : ℕ) (q : Queue) : Queue → Type 0 where
  rest : Moves n q q
  move : {r s : Queue} → Moves n q r → Move n r s → Moves n q s

-- The counters of the rings stand for the queue `q`, with `i` frames that are done but not yet freed.
pub record Stands (n i : ℕ) (q : Queue) (p : Priv) : Type 0 where
  pub num : p.tx.obj_num ≡ n
  pub head : p.tx.head ≡ q.sent
  pub tail : p.tx.tail ≡ q.done
  pub tef_tail : p.tef.tail ≡ q.done + i
  pub low : q.done + i ≤ p.tef.head
  pub mid : p.tef.head ≤ q.sent
  pub high : q.sent ≤ q.done + n

-- What the interrupt thread may do between the two looks of mcp251xfd_start_xmit at the ring.
unfoldable pub meanwhile : Bool → ⦃env : Env⦄ → M (Unit {0})
meanwhile false = pure tt
meanwhile true = handle_tefif

-- A successful call of one of the two, each with the answers of its own environment.
pub data Step (s : Drv) : Drv → Type 0 where
  xmit :
      (env : Env) (reaping fd : Bool) (cfd : CanFrame) (r : NetdevTx) {t : Drv}
      → start_xmit ⦃env = env⦄ (meanwhile reaping ⦃env = env⦄) cfd fd s ≡ ok r t
      → Step s t
  reap : (env : Env) {t : Drv} → handle_tefif ⦃env = env⦄ s ≡ ok tt t → Step s t

-- A history of `k` such calls.
pub data Reach (s : Drv) : ℕ → Drv → Type 0 where
  start : Reach s 0 s
  later : {k : ℕ} {t u : Drv} → Reach s k t → Step t u → Reach s (k + 1) u

-- After `c` calls: the counters stand for a queue that has moved on from `q` as it may.
pub record After (n : ℕ) (q : Queue) (c : ℕ) (p : Priv) : Type 0 where
  pub now : Queue
  pub stands : Stands n 0 now p
  pub moves : Moves n q now
  pub bound : now.sent ≤ q.sent + c
