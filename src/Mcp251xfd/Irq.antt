-- ===== src/Mcp251xfd/Irq.antt =====
-- The interrupt thread, mcp251xfd_irq.
pub mod Leaves
use yocto_layers.Common.{
  ℕ, zero, suc, bit_and, Bool, true, false, not, ◌||◌, ltb, ◌==◌, if◌then◌else◌,
}
use yocto_layers.Mcp251xfd.Monad.{
  Env, Drv, Out, ok, err, stuck, M, pure, ◌>>=◌, ◌>>◌, get, modify, when, ask, call, call_,
}
use yocto_layers.Mcp251xfd.State.{state_rank, reg_bulk_read, reg_update_bits, gpiod_get_value}
use yocto_layers.Mcp251xfd.Regs
use yocto_layers.Mcp251xfd.Regs.{field_get, genmask, any_bit}
use yocto_layers.Mcp251xfd.Configure.{chip_interrupts_disable}
use yocto_layers.Mcp251xfd.Chip.{is_bus_off}
use yocto_layers.Mcp251xfd.Tef.{handle_tefif}
use yocto_layers.Mcp251xfd.Rx.{handle_rxif}
use yocto_layers.Mcp251xfd.Errors.{
  complement32, handle_rxovif, handle_txatif, handle_ivmif, handle_cerrif, handle_modif,
  handle_serrif, handle_eccif, handle_spicrcif,
}

-- How a round of the main loop ends: with nothing pending, in bus off, or to be followed by another.
pub data Round : Type 0 where
  idle left_bus_off again : Round

-- The flags that are raised and enabled.
unfoldable pub intf_pending : ℕ → ℕ
intf_pending intf = bit_and (field_get Regs.int_if_mask intf) (field_get Regs.int_ie_mask intf)

module _ ⦃env : Env⦄ where
  -- The handlers of one round, in the order of the source; the first error ends it.
  unfoldable pub handle_pending : ℕ → M (Unit {0})
  handle_pending pending = do
    set_normal_mode ← (if any_bit pending Regs.int_modif then handle_modif else pure false)
    when (any_bit pending Regs.int_rxif) handle_rxif
    when (any_bit pending Regs.int_tefif) handle_tefif
    when (any_bit pending Regs.int_rxovif) handle_rxovif
    when (any_bit pending Regs.int_txatif) handle_txatif
    when (any_bit pending Regs.int_ivmif) handle_ivmif
    when (any_bit pending Regs.int_serrif) handle_serrif
    when (any_bit pending Regs.int_eccif) (handle_eccif set_normal_mode)
    when (any_bit pending Regs.int_spicrcif) handle_spicrcif

  -- The state handler also runs while the state is worse than error active.
  unfoldable pub check_state : ℕ → M Round
  unfolding is_bus_off
  check_state pending = do
    p ← get
    if any_bit pending Regs.int_cerrif || ltb 0 (state_rank p.can_state)
        then (do
          handle_cerrif
          q ← get
          pure (if is_bus_off q.can_state then left_bus_off else again))
        else pure again

  unfoldable pub irq_round : M Round
  unfolding intf_pending handle_pending check_state
  irq_round = do
    r ← call (reg_bulk_read Regs.int 1)
    modify (λ p. record p { intf = r.val })
    let pending = intf_pending r.val
    let clearable = bit_and pending Regs.int_if_clearable_mask
    if pending == 0 then pure idle else (do
      when (not (clearable == 0))
          (call_ (reg_update_bits Regs.int (genmask Regs.int_if_mask) (complement32 clearable)))
      handle_pending pending
      check_state pending)

  -- `out_fail`: the interrupts of the chip are switched off, whatever that returns.
  unfoldable pub out_fail : Bool → Drv → Out Bool
  out_fail handled s = elim (chip_interrupts_disable s) [
    | ok _ t ↦ ok handled t
    | err e t ↦ ok handled t
    | stuck ↦ stuck
  ]

  -- The main loop, with the rounds left; the result is IRQ_HANDLED or IRQ_NONE.
  unfoldable pub irq_loop : ℕ → Bool → M Bool
  unfolding irq_round out_fail
  irq_loop zero handled s = stuck
  irq_loop (suc fuel) handled s = elim (irq_round s) [
    | ok r t ↦ elim r [
      | idle ↦ ok handled t
      | left_bus_off ↦ ok true t
      | again ↦ irq_loop fuel true t
    ]
    | err e t ↦ out_fail handled t
    | stuck ↦ stuck
  ]

  -- The RX loop on the dedicated pin: `err` carries the value of `handled` to `out_fail`.
  unfoldable pub rx_int_loop : ℕ → ℕ → Bool → M Bool
  unfolding irq_loop out_fail
  rx_int_loop zero fuel handled s = stuck
  rx_int_loop (suc left) fuel handled s = elim (ask gpiod_get_value s) [
    | ok r t ↦ elim (r.val == 0) [
      | true ↦ irq_loop fuel handled t
      | false ↦ elim (handle_rxif t) [
        | ok _ u ↦ rx_int_loop left fuel true u
        | err e u ↦ out_fail handled u
        | stuck ↦ stuck
      ]
    ]
    | err e t ↦ err e t
    | stuck ↦ stuck
  ]

  -- `rx_fuel` and `fuel` bound the rounds of the two loops.
  unfoldable pub irq : ℕ → ℕ → M Bool
  unfolding rx_int_loop
  irq rx_fuel fuel = do
    p ← get
    if p.rx_int then rx_int_loop rx_fuel fuel false else irq_loop fuel false
