-- ===== src/Mcp251xfd/Irq/Leaves.antt =====
-- How mcp251xfd_irq leaves the chip.
use yocto_layers.Common.{
  ℕ, ap, ltb, ◌||◌, ◌%◌, ◌/◌, ◌^◌, bit_and, none, drop, ==_iff, arith, ◌∙◌, zero, suc, ◌≡◌, refl,
  Bool, true, false, List, [], ◌∷◌, ◌++◌, ◌==◌, if◌then◌else◌,
}
use yocto_layers.Mcp251xfd.Regs
use yocto_layers.Mcp251xfd.Regs.{any_bit}
use yocto_layers.Mcp251xfd.Chip.{is_bus_off}
use yocto_layers.Mcp251xfd.Errors.{handle_cerrif}
use yocto_layers.Mcp251xfd.Monad.{Env, Drv, Out, ok, err, stuck}
use yocto_layers.Mcp251xfd.State.{
  Errno, Call, reg_write, reg_bulk_read, gpiod_get_value, CanState, error_active, error_warning,
  error_passive, bus_off, stopped, sleeping, state_rank,
}
use yocto_layers.Mcp251xfd.Post.{
  Ends, returns, fails, called-Ends, OnSuccess, granted-OnSuccess, if-OnSuccess, after-OnSuccess,
}
use yocto_layers.Mcp251xfd.Configure.{chip_interrupts_disable}
use yocto_layers.Mcp251xfd.Rx.{handle_rxif}
use yocto_layers.Mcp251xfd.Irq.{
  Round, idle, left_bus_off, again, irq_round, intf_pending, handle_pending, check_state, out_fail,
  irq_loop, rx_int_loop, irq,
}

-- After `v` a write to INT that switches the chip's interrupts off was tried.
abbrev pub SwitchedOff : Drv → Drv → Type 0
SwitchedOff v t = (later : List Call) × (t.calls ≡ later ++ reg_write Regs.int 0 ∷ v.calls)

module _ ⦃env : Env⦄ where
  -- The last call read INT without an error, and none of its 16 enable bits stands beside its flag.
  abbrev pub ShowsNone : Drv → Type 0
  ShowsNone t =
      (t.calls ≡ reg_bulk_read Regs.int 1 ∷ drop 1 t.calls)
      × ((env.answer t.calls).err ≡ none)
      × (bit_and ((env.answer t.calls).val % 2 ^ 16) ((env.answer t.calls).val / 2 ^ 16 % 2 ^ 16)
          ≡ 0)

  -- Why the thread has come back: the chip showed no interrupt, it is in bus off, or a round or a read
  -- of the RX FIFOs has failed and the interrupts were to be switched off.
  pub data Leaves (r : Bool) (t : Drv) : Type 0 where
    nothing_pending : ShowsNone t → Leaves r t
    in_bus_off : t.priv.can_state ≡ bus_off → r ≡ true → Leaves r t
    round_failed : (e : Errno) (u v : Drv) → irq_round u ≡ err e v → SwitchedOff v t → Leaves r t
    rx_failed : (e : Errno) (u v : Drv) → handle_rxif u ≡ err e v → SwitchedOff v t → Leaves r t

  -- No error comes out, and a result only with `P`.
  abbrev pub Only : (Bool → Drv → Type 0) → Out Bool → Type 0
  Only P o = elim o [ ok r t ↦ P r t | err e t ↦ ⊥ | stuck ↦ Unit {0} ]

  disable-SwitchedOff :
      (v : Drv) → Ends (λ _ t. SwitchedOff v t) (λ _ t. SwitchedOff v t) (chip_interrupts_disable v)
  unfolding chip_interrupts_disable
  disable-SwitchedOff v =
      called-Ends _ _ v
        (λ _.
          called-Ends _ _ _
            (λ _. called-Ends _ _ _ (λ _. returns (_ ∷ _ ∷ [], refl)) (λ _ _. (_ ∷ _ ∷ [], refl)))
            (λ _ _. (_ ∷ [], refl)))
        (λ _ _. ([], refl))

  dropped :
      (v : Drv) (handled : Bool) {o : Out (Unit {0})}
      → Ends (λ _ t. SwitchedOff v t) (λ _ t. SwitchedOff v t) o
      → ((t : Drv) → SwitchedOff v t → Leaves handled t)
      → Only Leaves (elim o [ ok _ t ↦ ok handled t | err e t ↦ ok handled t | stuck ↦ stuck ])
  dropped v handled (returns h) f = f _ h
  dropped v handled (fails h) f = f _ h

  out_fail-Only :
      (handled : Bool) (v : Drv)
      → ((t : Drv) → SwitchedOff v t → Leaves handled t)
      → Only Leaves (out_fail handled v)
  unfolding out_fail
  out_fail-Only handled v f = dropped v handled (disable-SwitchedOff v) f

  -- What a round without an error has found.
  abbrev Found : Round → Drv → Type 0
  Found r t = elim r [
    | idle ↦ ShowsNone t
    | left_bus_off ↦ t.priv.can_state ≡ bus_off
    | again ↦ Unit {0}
  ]

  bus_off-Found :
      (c : CanState) (v : Drv)
      → v.priv.can_state ≡ c
      → Found (if is_bus_off c then left_bus_off else again) v
  unfolding is_bus_off
  bus_off-Found bus_off v e = e
  bus_off-Found error_active v e = tt
  bus_off-Found error_warning v e = tt
  bus_off-Found error_passive v e = tt
  bus_off-Found stopped v e = tt
  bus_off-Found sleeping v e = tt

  no_flag : (v : ℕ) → (intf_pending v == 0) ≡ true → bit_and (v % 2 ^ 16) (v / 2 ^ 16 % 2 ^ 16) ≡ 0
  unfolding intf_pending
  no_flag v z =
      let one : v ≡ v / 2 ^ 0 = omega arith in
      ap (λ (t : ℕ). bit_and (t % 2 ^ 16) (v / 2 ^ 16 % 2 ^ 16)) one ∙ (==_iff _ _).0 z

  check_state-Found : (pending : ℕ) (t : Drv) → OnSuccess Found (check_state pending t)
  unfolding check_state
  check_state-Found pending t =
      if-OnSuccess Found (any_bit pending Regs.int_cerrif || ltb 0 (state_rank t.priv.can_state)) _
        _ t
        (λ _.
          after-OnSuccess Found (handle_cerrif t) _ (λ _ v. bus_off-Found v.priv.can_state v refl))
        (λ _. tt)

  irq_round-Found : (u : Drv) → OnSuccess Found (irq_round u)
  unfolding irq_round
  irq_round-Found u = granted-OnSuccess Found (reg_bulk_read Regs.int 1) _ u (λ e.
      let val = (env.answer (reg_bulk_read Regs.int 1 ∷ u.calls)).val in
      if-OnSuccess Found (intf_pending val == 0) _ _ _ (λ z. (refl, e, no_flag val z))
        (λ _. after-OnSuccess Found _ _ (λ _ t.
          after-OnSuccess Found (handle_pending (intf_pending val) t) _
            (λ _ v. check_state-Found (intf_pending val) v))))

  next_round :
      (o : Out Round) (u : Drv) (fuel : ℕ) (handled : Bool)
      → irq_round u ≡ o
      → OnSuccess Found o
      → ((t : Drv) → Only Leaves (irq_loop fuel true t))
      → Only Leaves (elim o [
        | ok r t ↦ elim r [
          | idle ↦ ok handled t
          | left_bus_off ↦ ok true t
          | again ↦ irq_loop fuel true t
        ]
        | err e t ↦ out_fail handled t
        | stuck ↦ stuck
      ])
  next_round (ok idle t) u fuel handled h f ih = nothing_pending f
  next_round (ok left_bus_off t) u fuel handled h f ih = in_bus_off f refl
  next_round (ok again t) u fuel handled h f ih = ih t
  next_round (err e v) u fuel handled h f ih =
      out_fail-Only handled v (λ t off. round_failed e u v h off)
  next_round stuck u fuel handled h f ih = tt

  irq_loop-Only : (fuel : ℕ) (handled : Bool) (s : Drv) → Only Leaves (irq_loop fuel handled s)
  unfolding irq_loop
  irq_loop-Only zero handled s = tt
  irq_loop-Only (suc fuel) handled s =
      next_round (irq_round s) s fuel handled refl (irq_round-Found s) (irq_loop-Only fuel true)

  next_rx :
      (o : Out (Unit {0})) (u : Drv) (left fuel : ℕ) (handled : Bool)
      → handle_rxif u ≡ o
      → ((t : Drv) → Only Leaves (rx_int_loop left fuel true t))
      → Only Leaves (elim o [
        | ok _ t ↦ rx_int_loop left fuel true t
        | err e t ↦ out_fail handled t
        | stuck ↦ stuck
      ])
  next_rx (ok a t) u left fuel handled h ih = ih t
  next_rx (err e v) u left fuel handled h ih =
      out_fail-Only handled v (λ t off. rx_failed e u v h off)
  next_rx stuck u left fuel handled h ih = tt

  asked :
      (quiet : Bool) (u : Drv) (left fuel : ℕ) (handled : Bool)
      → ((t : Drv) → Only Leaves (rx_int_loop left fuel true t))
      → Only Leaves (elim quiet [
        | true ↦ irq_loop fuel handled u
        | false ↦ elim (handle_rxif u) [
          | ok _ t ↦ rx_int_loop left fuel true t
          | err e t ↦ out_fail handled t
          | stuck ↦ stuck
        ]
      ])
  asked true u left fuel handled ih = irq_loop-Only fuel handled u
  asked false u left fuel handled ih = next_rx (handle_rxif u) u left fuel handled refl ih

  rx_int_loop-Only :
      (left fuel : ℕ) (handled : Bool) (s : Drv) → Only Leaves (rx_int_loop left fuel handled s)
  unfolding rx_int_loop
  rx_int_loop-Only zero fuel handled s = tt
  rx_int_loop-Only (suc left) fuel handled s =
      asked ((env.answer (gpiod_get_value ∷ s.calls)).val == 0)
        (record s { calls = gpiod_get_value ∷ s.calls }) left fuel handled
        (rx_int_loop-Only left fuel true)

  either_loop :
      (b : Bool) (rx_fuel fuel : ℕ) (s : Drv)
      → Only Leaves ((if b then rx_int_loop rx_fuel fuel false else irq_loop fuel false) s)
  either_loop true rx_fuel fuel s = rx_int_loop-Only rx_fuel fuel false s
  either_loop false rx_fuel fuel s = irq_loop-Only fuel false s

  pub irq-Only : (rx_fuel fuel : ℕ) (s : Drv) → Only Leaves (irq rx_fuel fuel s)
  unfolding irq
  irq-Only rx_fuel fuel s = either_loop s.priv.rx_int rx_fuel fuel s
