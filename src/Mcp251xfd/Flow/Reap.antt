-- ===== src/Mcp251xfd/Flow/Reap.antt =====
-- mcp251xfd_handle_tefif finishes frames of the queue.
use yocto_layers.Common.{
  ℕ, suc, ◌+◌, ◌^◌, ◌≤◌, ◌<◌, ◌≡◌, sym, ap, subst, ◌∙◌, false, not, List, [], ◌∷◌, length, ◌==◌,
  arith, if◌then◌else◌,
}
use yocto_layers.Mcp251xfd.Monad.{Env, Drv, Out, ok, err, stuck, when}
use yocto_layers.Mcp251xfd.Regs
use yocto_layers.Mcp251xfd.Regs.{field_get, any_bit}
use yocto_layers.Mcp251xfd.State.{HwTefObj, Priv, reg_read}
use yocto_layers.Mcp251xfd.Post.{
  Ends, returns, fails, weaken-Ends, bind-Ends, then-Ends, called-Ends, choose-Ends, if-Ends,
  when-Ends,
}
use yocto_layers.Mcp251xfd.Ring.{get_tx_free, get_tef_len}
use yocto_layers.Mcp251xfd.Tef.{
  masked_seq, handle_tefif_one, handle_tefif_recover, tefif_loop, is_eagain, tef_new_head,
  tef_ring_update, tx_tail_get_from_chip, tef_objs, tef_advance, ecc_tefif_successful, handle_tefif,
}
use yocto_layers.Mcp251xfd.Tef.Progress.{AnyError}
use yocto_layers.Mcp251xfd.Flow.{Queue, Stands}
use yocto_layers.Mcp251xfd.Flow.Reads.{tef_new_head-within, check_tef_tail-Same, tef_objs-Same}

-- In a ring of `n` objects whose queue `q` is not near the end of the counters.
module _ (k n : ℕ) (power : n ≡ 2 ^ k) (small : n ≤ 128) (q : Queue) (room : q.sent + 256 ≤ 2 ^ 32)
    ⦃env : Env⦄ where
  len_lem : (p : Priv) → Stands n 0 q p → get_tef_len p.tef + q.done ≡ p.tef.head
  unfolding get_tef_len
  len_lem p h = ground (arith, h.tef_tail, h.low, h.mid, h.high)

  new_head-Stands :
      (chip : ℕ) (p : Priv)
      → chip < 32
      → Stands n 0 q p
      → Stands n 0 q (record p { tef = record (p.tef) { head = tef_new_head p.tef p.tx chip } })
  new_head-Stands chip p c h =
      let b =
        tef_new_head-within k chip p.tef p.tx (h.num ∙ power) (omega (arith, h.num)) c
          (omega (arith, h.mid, h.head)) (omega (arith, h.head)) in
      record {
        num = h.num;
        head = h.head;
        tail = h.tail;
        tef_tail = h.tef_tail;
        low = omega (arith, b.0, h.low);
        mid = omega (arith, b.1, h.head);
        high = h.high;
      }

  tef_ring_update-Stands :
      (s : Drv)
      → Stands n 0 q s.priv
      → Ends (λ _ t. Stands n 0 q t.priv) AnyError (tef_ring_update s)
  unfolding tef_ring_update tx_tail_get_from_chip
  tef_ring_update-Stands s h =
      bind-Ends tx_tail_get_from_chip _ s
        (called-Ends {R = λ chip t. Stands n 0 q t.priv × (chip < 32)} _ _ s
          (λ _. returns (h, omega arith)) (λ _ _. tt))
        (λ chip t e.
          weaken-Ends (check_tef_tail-Same _)
            (λ _ u same. subst (Stands n 0 q) (sym same) (new_head-Stands chip t.priv e.1 e.0))
            (λ _ _ _. tt))

  recover-Stands :
      {P : Unit {0} → Drv → Type 0} (i : ℕ) (s : Drv)
      → Stands n i q s.priv
      → Ends P (λ _ t. Stands n i q t.priv) (handle_tefif_recover s)
  unfolding handle_tefif_recover
  recover-Stands i s h =
      let status = (env.answer (reg_read Regs.tefsta ∷ s.calls)).val in
      called-Ends _ _ s
        (λ _. choose-Ends (any_bit status Regs.tefsta_tefovif) _ _ _ (λ _. fails h) (λ _. fails h))
        (λ _ _. h)

  -- The objects that are left reach up to the TEF head.
  abbrev Left : ℕ → ℕ → Priv → Type 0
  Left i rest p = Stands n i q p × (rest + (q.done + i) ≤ p.tef.head)

  one-Left :
      (obj : HwTefObj) (i rest : ℕ) (s : Drv)
      → Left i (suc rest) s.priv
      → Ends (λ _ t. Left (i + 1) rest t.priv) (λ _ t. Stands n i q t.priv) (handle_tefif_one obj s)
  unfolding handle_tefif_one
  one-Left obj i rest s h =
      let seq = field_get Regs.obj_flags_seq_mcp2518fd_mask obj.flags in
      choose-Ends (masked_seq seq == masked_seq s.priv.tef.tail) _ _ s
        (λ _. returns (
          record {
            num = h.0.num;
            head = h.0.head;
            tail = h.0.tail;
            tef_tail = omega (arith, h.0.tef_tail, h.1, h.0.mid);
            low = omega (arith, h.1);
            mid = h.0.mid;
            high = h.0.high;
          },
          omega (arith, h.1),
        ))
        (λ _. recover-Stands i s h.0)

  step :
      (objs : List HwTefObj) (i : ℕ) {P : ℕ → Drv → Type 0} {o : Out (Unit {0})}
      → Ends (λ _ t. Left (i + 1) (length objs) t.priv) (λ _ t. Stands n i q t.priv) o
      → ((t : Drv)
          → Left (i + 1) (length objs) t.priv
          → Ends P AnyError (tefif_loop objs (i + 1) t))
      → ((t : Drv) → Stands n i q t.priv → P i t)
      → Ends P AnyError (elim o [
        | ok _ t ↦ tefif_loop objs (i + 1) t
        | err e t ↦ if is_eagain e then ok i t else err e t
        | stuck ↦ stuck
      ])
  step objs i (returns h) f g = f _ h
  step objs i (fails {e = e} h) f g = if-Ends (is_eagain e) (λ _. returns (g _ h)) (λ _. fails tt)

  loop-Stands :
      (objs : List HwTefObj) (i : ℕ) (s : Drv)
      → Left i (length objs) s.priv
      → Ends (λ len t. Stands n len q t.priv) AnyError (tefif_loop objs i s)
  unfolding tefif_loop
  loop-Stands [] i s h = returns h.0
  loop-Stands (obj ∷ objs) i s h =
      step objs i (one-Left obj i (length objs) s h) (λ t g. loop-Stands objs (i + 1) t g)
        (λ t g. g)

  -- The queue after `len` frames are finished.
  abbrev pub finished : ℕ → Queue
  finished len = record q { done = q.done + len }

  advance-Stands :
      (len : ℕ) (s : Drv)
      → Stands n len q s.priv
      → Ends (λ _ t. Stands n 0 (finished len) t.priv) AnyError (tef_advance len s)
  unfolding tef_advance
  advance-Stands len s h =
      called-Ends _ _ s
        (λ _.
          weaken-Ends (check_tef_tail-Same _)
            (λ _ u same. subst (Stands n 0 (finished len)) (sym same) (record {
              num = h.num;
              head = h.head;
              tail = omega (arith, h.tail, h.low, h.mid);
              tef_tail = omega (arith, h.tef_tail);
              low = omega (arith, h.low);
              mid = h.mid;
              high = omega (arith, h.high);
            }))
            (λ _ _ _. tt))
        (λ _ _. tt)

  -- Some frames, at most those in flight, are finished.
  unfoldable pub Finished : Priv → Type 0
  Finished p = (len : ℕ) × Stands n 0 (finished len) p × (q.done + len ≤ q.sent)

  none-Finished : (len : ℕ) (p : Priv) → not (len == 0) ≡ false → Stands n len q p → Finished p
  unfolding Finished
  none-Finished len p z h = (
    0,
    record {
      num = h.num;
      head = h.head;
      tail = omega (arith, h.tail);
      tef_tail = ground (arith, h.tef_tail);
      low = omega (arith, h.low);
      mid = h.mid;
      high = omega (arith, h.high);
    },
    omega (arith, h.low, h.mid),
  )

  clear-Finished :
      (p : Priv) → Finished p → Finished (record p { ecc = record (p.ecc) { ecc_stat = 0 } })
  unfolding Finished
  clear-Finished p (len, h, le) = (
    len,
    record {
      num = h.num;
      head = h.head;
      tail = h.tail;
      tef_tail = h.tef_tail;
      low = h.low;
      mid = h.mid;
      high = h.high;
    },
    le,
  )

  -- Where the queue is in order and not near the end of the counters, the TEF handler comes to an end,
  -- and when it succeeds it has finished frames that were in flight.
  pub handle_tefif-Finished :
      (s : Drv) → Stands n 0 q s.priv → Ends (λ _ t. Finished t.priv) AnyError (handle_tefif s)
  unfolding handle_tefif ecc_tefif_successful Finished
  handle_tefif-Finished s h = then-Ends tef_ring_update _ s (tef_ring_update-Stands s h) (λ _ t g.
      bind-Ends tef_objs _ t (tef_objs-Same t) (λ objs u e.
        let g' = subst (Stands n 0 q) (sym e.0) g in
        bind-Ends (tefif_loop objs 0) _ u
          (loop-Stands objs 0 u
            (g', omega (arith, e.1, len_lem t.priv g, ap (λ (p : Priv). p.tef.head) e.0)))
          (λ len v f.
            then-Ends (when (not (len == 0)) (tef_advance len)) _ v
              (when-Ends {P = λ _ t. Finished t.priv} {Q = AnyError} (not (len == 0)) _ v
                (λ _.
                  weaken-Ends (advance-Stands len v f)
                    (λ _ w j. (len, j, omega (arith, f.low, f.mid))) (λ _ _ _. tt))
                (λ z. none-Finished len v.priv z f))
              (λ _ w j.
                when-Ends (not (get_tx_free w.priv.tx == 0)) _ _
                  (λ _. returns (clear-Finished w.priv j)) (λ _. clear-Finished w.priv j)))))
