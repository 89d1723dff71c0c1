-- ===== src/Mcp251xfd/Device/Calm/Memory.antt =====
-- The memory of the RX rings: mcp251xfd_ring_alloc takes it and mcp251xfd_ring_free gives it back.
use yocto_layers.Common.{
  ℕ, ◌+◌, ◌-◌, ◌*◌, ◌≡◌, refl, ap, ap₂, sym, ◌∙◌, Bool-cases, inl, inr, true, false, Option, none,
  List, [], ◌∷◌, ◌++◌, length, length-append, leb, u8, arith,
}
use yocto_layers.Mcp251xfd.Regs
use yocto_layers.Mcp251xfd.Monad.{Env, Drv}
use yocto_layers.Mcp251xfd.State.{Errno, Call, CtrlMode, RxRing, kzalloc, kfree, kfree_null, enomem}
use yocto_layers.Mcp251xfd.Ring.{tef_obj_size}
use yocto_layers.Mcp251xfd.Post.{returns, if-Ends}
use yocto_layers.Mcp251xfd.Does.{
  Does, pure-Does, raise-Does, get-Does, modify-Does, bind-Does, then-Does, attempt-bind-Does,
}
use yocto_layers.Mcp251xfd.Setup.{
  ring_alloc, ring_free, alloc_rx_rings, keep_ring, rx_ring_max, sizes, fd_sized,
}
use yocto_layers.Mcp251xfd.Device.Held.{Held, Wiring, effect, held, Owns}
use yocto_layers.Mcp251xfd.Device.Power.{call-Owns}

-- With `n` RX rings.
abbrev pub ringed : ℕ → Wiring → Wiring
ringed n w = record w { rings = n }

-- One allocation more.
abbrev pub allocated : Held → Held
allocated h = effect (kzalloc 0) none h

-- What ring_free hands to kfree.
abbrev freed : List RxRing → Call
freed rx = elim rx [ [] ↦ kfree_null | _ ∷ _ ↦ kfree ]

paid :
    (rx : List RxRing) (e : Option Errno) (h k : Held)
    → length rx ≡ 1
    → k ≡ allocated h
    → effect (freed rx) e k ≡ h
paid [] e h k one q = absurd (omega (arith, one))
paid (r ∷ rs) e h k one q = ap (effect kfree none) q

unpaid :
    (rx : List RxRing) (e : Option Errno) (h k : Held)
    → length rx ≡ 0
    → k ≡ h
    → effect (freed rx) e k ≡ h
unpaid [] e h k empty q = q
unpaid (r ∷ rs) e h k empty q = absurd (omega (arith, empty))

never : ¬ (true ≡ false)
never e = cc

-- In both layouts there is room for an object in the first RX FIFO.
room :
    (mode : CtrlMode)
    → leb
        (sizes mode).rx_obj_size
        (Regs.ram_size - (sizes mode).tx_obj_num * (tef_obj_size + (sizes mode).tx_obj_size))
      ≡ true
unfolding sizes
room mode = elim (Bool-cases (fd_sized mode)) [ inl e ↦ rw e refl | inr e ↦ rw e refl ]

module _ (h : Held) (w : Wiring) (sizeof_rx_ring : ℕ) ⦃env : Env⦄ where
  pub ring_free-Owns :
      {K : Drv → Type 0}
      → Does (Owns (allocated h) (ringed 1 w)) (Owns h (ringed 0 w)) K (ring_free sizeof_rx_ring)
  unfolding ring_free
  ring_free-Owns = record {
    runs = λ s i.
        returns (paid s.priv.rx _ h (held s.calls) (ap (λ v. v.rings) i.1) i.0, ap (ringed 0) i.1);
  }

  none-Owns :
      {K : Drv → Type 0}
      → Does (Owns h (ringed 0 w)) (Owns h (ringed 0 w)) K (ring_free sizeof_rx_ring)
  unfolding ring_free
  none-Owns = record {
    runs = λ s i.
        returns
          (unpaid s.priv.rx _ h (held s.calls) (ap (λ v. v.rings) i.1) i.0, ap (ringed 0) i.1);
  }

  kept_ring :
      (ring : RxRing) (s : Drv)
      → Owns (allocated h) (ringed 0 w) s
      → Owns
          (allocated h)
          (ringed 1 w)
          (record s { priv = record (s.priv) { rx = s.priv.rx ++ ring ∷ [] } })
  kept_ring ring s i =
      let empty : length s.priv.rx ≡ 0 = ap (λ (v : Wiring). v.rings) i.1 in
      let one : length (s.priv.rx ++ ring ∷ []) ≡ 1 =
        omega (arith, empty, length-append s.priv.rx (ring ∷ [])) in
      (i.0, ap₂ (λ (v : Wiring) n. ringed n v) i.1 one)

  alloc-Owns :
      (size free : ℕ)
      → leb size free ≡ true
      → Does
          (Owns h (ringed 0 w))
          (Owns (allocated h) (ringed 1 w))
          (Owns h (ringed 0 w))
          (alloc_rx_rings sizeof_rx_ring rx_ring_max size free)
  unfolding alloc_rx_rings keep_ring
  alloc-Owns size free fits = record {
    runs = λ s i.
        if-Ends (leb size free)
          (λ _.
            (attempt-bind-Does {J = Owns (allocated h) (ringed 0 w)} {K = Owns h (ringed 0 w)} _
                (call-Owns _ (λ e. refl))
                (then-Does (modify-Does _ (λ t j. kept_ring _ t j)) (pure-Does tt))
                (λ e. then-Does none-Owns (raise-Does enomem))).runs
              s i)
          (λ full. absurd (never (sym fits ∙ full)));
  }

  pub ring_alloc-Owns :
      Does
        (Owns h (ringed 0 w))
        (Owns (allocated h) (ringed 1 w))
        (Owns h (ringed 0 w))
        (ring_alloc sizeof_rx_ring)
  unfolding ring_alloc
  ring_alloc-Owns = bind-Does get-Does λ p.
      then-Does {J = Owns h (ringed 0 w)}
        (modify-Does
          (λ q. record q {
            tx = record (q.tx) {
              obj_num = u8 (sizes p.ctrlmode).tx_obj_num;
              obj_size = u8 (sizes p.ctrlmode).tx_obj_size;
            };
          })
          (λ s i. i))
        (alloc-Owns _ _ (room p.ctrlmode))
