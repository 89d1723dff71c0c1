-- ===== src/Mcp251xfd/Tef/Progress.antt =====
-- The tails that mcp251xfd_handle_tefif moves.
use yocto_layers.Common.{
  ℕ, ◌+◌, ◌≤◌, ◌≡◌, false, not, List, [], ◌∷◌, ◌&&◌, ◌||◌, ltb, length, ◌==◌, u32, arith,
  if◌then◌else◌,
}
use yocto_layers.Mcp251xfd.Monad.{Env, Drv, Out, ok, err, stuck, when}
use yocto_layers.Mcp251xfd.Regs
use yocto_layers.Mcp251xfd.Regs.{any_bit, field_get}
use yocto_layers.Mcp251xfd.State.{reg_read, Errno, HwTefObj, Priv}
use yocto_layers.Mcp251xfd.Post.{
  Ends, returns, fails, weaken-Ends, bind-Ends, then-Ends, called-Ends, choose-Ends, if-Ends,
  when-Ends,
}
use yocto_layers.Mcp251xfd.Ring.{get_tx_free, get_tef_tail, get_tef_len, get_tef_linear_len}
use yocto_layers.Mcp251xfd.Tef.{
  masked_seq, handle_tefif_one, handle_tefif_recover, tefif_loop, is_eagain, tef_ring_update,
  check_tef_tail, tx_tail_get_from_chip, tef_tail_get_from_chip, tef_objs, tef_obj_read,
  tef_advance, ecc_tefif_successful, handle_tefif,
}

-- The TEF tail is `n` objects ahead of the TX tail.
abbrev pub InStep : ℕ → Priv → Type 0
InStep n p = p.tef.tail ≡ u32 (p.tx.tail + n)

abbrev pub AnyError : Errno → Drv → Type 0
AnyError e t = Unit {0}

done : (len : ℕ) → not (len == 0) ≡ false → len ≡ 0
done len h = ground arith

module _ ⦃env : Env⦄ where
  recover-priv :
      {P : Unit {0} → Drv → Type 0} (i : ℕ) (s : Drv)
      → InStep i s.priv
      → Ends P (λ _ t. InStep i t.priv) (handle_tefif_recover s)
  unfolding handle_tefif_recover
  recover-priv i s h =
      let status = (env.answer (reg_read Regs.tefsta ∷ s.calls)).val in
      called-Ends _ _ s
        (λ _. choose-Ends (any_bit status Regs.tefsta_tefovif) _ _ _ (λ _. fails h) (λ _. fails h))
        (λ _ _. h)

  handle_tefif_one-InStep :
      (obj : HwTefObj) (i : ℕ) (s : Drv)
      → InStep i s.priv
      → Ends (λ _ t. InStep (i + 1) t.priv) (λ _ t. InStep i t.priv) (handle_tefif_one obj s)
  unfolding handle_tefif_one
  handle_tefif_one-InStep obj i s h =
      let seq = field_get Regs.obj_flags_seq_mcp2518fd_mask obj.flags in
      choose-Ends (masked_seq seq == masked_seq s.priv.tef.tail) _ _ s
        (λ _. returns (omega (arith, h))) (λ _. recover-priv i s h)

  -- What the loop makes of the outcome for one object.
  step :
      (objs : List HwTefObj) (i : ℕ) {P : ℕ → Drv → Type 0} {o : Out (Unit {0})}
      → Ends (λ _ t. InStep (i + 1) t.priv) (λ _ t. InStep i t.priv) o
      → ((t : Drv) → InStep (i + 1) t.priv → Ends P AnyError (tefif_loop objs (i + 1) t))
      → ((t : Drv) → InStep i t.priv → P i t)
      → Ends P AnyError (elim o [
        | ok _ t ↦ tefif_loop objs (i + 1) t
        | err e t ↦ if is_eagain e then ok i t else err e t
        | stuck ↦ stuck
      ])
  step objs i (returns h) f g = f _ h
  step objs i (fails {e = e} h) f g = if-Ends (is_eagain e) (λ _. returns (g _ h)) (λ _. fails tt)

  tefif_loop-InStep :
      (objs : List HwTefObj) (i : ℕ) (s : Drv)
      → InStep i s.priv
      → Ends (λ n t. InStep n t.priv × (n ≤ i + length objs)) AnyError (tefif_loop objs i s)
  unfolding tefif_loop
  tefif_loop-InStep [] i s h = returns (h, omega arith)
  tefif_loop-InStep (obj ∷ objs) i s h =
      step objs i (handle_tefif_one-InStep obj i s h)
        (λ t g.
          weaken-Ends (tefif_loop-InStep objs (i + 1) t g) (λ n u r. (r.0, omega (arith, r.1)))
            (λ _ _ _. tt))
        (λ t g. (g, omega arith))

  check_tef_tail-InStep :
      (s : Drv) → InStep 0 s.priv → Ends (λ _ t. InStep 0 t.priv) AnyError (check_tef_tail s)
  unfolding check_tef_tail tef_tail_get_from_chip
  check_tef_tail-InStep s h =
      when-Ends env.sanity _ s
        (λ _.
          bind-Ends tef_tail_get_from_chip _ s
            (called-Ends {R = λ _ t. InStep 0 t.priv} _ _ s (λ _. returns h) (λ _ _. tt))
            (λ chip t e.
              choose-Ends (chip == get_tef_tail t.priv.tef t.priv.tx) _ _ t (λ _. returns e)
                (λ _. fails tt)))
        (λ _. h)

  tef_ring_update-InStep :
      (s : Drv) → InStep 0 s.priv → Ends (λ _ t. InStep 0 t.priv) AnyError (tef_ring_update s)
  unfolding tef_ring_update tx_tail_get_from_chip
  tef_ring_update-InStep s h =
      bind-Ends tx_tail_get_from_chip _ s
        (called-Ends {R = λ _ t. InStep 0 t.priv} _ _ s (λ _. returns h) (λ _ _. tt))
        (λ chip t e. check_tef_tail-InStep _ e)

  tef_obj_read-InStep :
      (offset len : ℕ) (s : Drv)
      → InStep 0 s.priv
      → Ends (λ _ t. InStep 0 t.priv) AnyError (tef_obj_read offset len s)
  unfolding tef_obj_read
  tef_obj_read-InStep offset len s h =
      let n = s.priv.tx.obj_num in
      choose-Ends (env.sanity && (ltb n offset || (ltb n len || ltb n (offset + len)))) _ _ s
        (λ _. fails tt) (λ _. called-Ends _ _ s (λ _. returns h) (λ _ _. tt))

  tef_objs-InStep :
      (s : Drv) → InStep 0 s.priv → Ends (λ _ t. InStep 0 t.priv) AnyError (tef_objs s)
  unfolding tef_objs
  tef_objs-InStep s h =
      let p = s.priv in
      bind-Ends (tef_obj_read (get_tef_tail p.tef p.tx) (get_tef_linear_len p.tef p.tx)) _ s
        (tef_obj_read-InStep _ _ s h)
        (λ first t e.
          choose-Ends (ltb (get_tef_linear_len p.tef p.tx) (get_tef_len p.tef)) _ _ t
            (λ _.
              bind-Ends (tef_obj_read 0 _) _ t (tef_obj_read-InStep _ _ t e) (λ _ u f. returns f))
            (λ _. returns e))

  tef_advance-InStep :
      (len : ℕ) (s : Drv)
      → InStep len s.priv
      → Ends (λ _ t. InStep 0 t.priv) AnyError (tef_advance len s)
  unfolding tef_advance
  tef_advance-InStep len s h =
      called-Ends _ _ s (λ _. check_tef_tail-InStep _ (omega (arith, h))) (λ _ _. tt)

  -- When TEF tail and TX tail agree and the handler succeeds, they agree again: as many TX objects
  -- are freed as TEF objects are taken in, whatever the chip answers. It comes to an end.
  pub handle_tefif-InStep :
      (s : Drv) → InStep 0 s.priv → Ends (λ _ t. InStep 0 t.priv) AnyError (handle_tefif s)
  unfolding handle_tefif ecc_tefif_successful
  handle_tefif-InStep s h = then-Ends tef_ring_update _ s (tef_ring_update-InStep s h) (λ _ t g.
      bind-Ends tef_objs _ t (tef_objs-InStep t g) (λ objs u k.
        bind-Ends (tefif_loop objs 0) _ u (tefif_loop-InStep objs 0 u k) (λ len v r.
          then-Ends (when (not (len == 0)) (tef_advance len)) _ v
            (when-Ends {P = λ _ t. InStep 0 t.priv} {Q = AnyError} (not (len == 0)) _ v
              (λ _. tef_advance-InStep len v r.0) (λ z. omega (arith, r.0, done len z)))
            (λ _ w e. when-Ends (not (get_tx_free w.priv.tx == 0)) _ _ (λ _. returns e) (λ _. e)))))
