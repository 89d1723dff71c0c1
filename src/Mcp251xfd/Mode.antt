-- ===== src/Mcp251xfd/Mode.antt =====
-- The operating mode of the chip: mcp251xfd_chip_get_mode, __mcp251xfd_chip_set_mode and the normal
-- mode that the control mode asks for.
use yocto_layers.Common.{ℕ, Bool, true, false, ◌&&◌, ◌||◌, ◌==◌, if◌then◌else◌}
use yocto_layers.Mcp251xfd.Monad.{Env, M, pure, ◌>>=◌, ◌>>◌, get, call, call_}
use yocto_layers.Mcp251xfd.State.{CtrlMode, reg_read, reg_update_bits, reg_poll, field}
use yocto_layers.Mcp251xfd.Regs
use yocto_layers.Mcp251xfd.Regs.{field_get, field_prep, genmask}

unfoldable pub get_normal_mode : CtrlMode → ℕ
get_normal_mode m =
    if m.loopback
    then Regs.con_mode_int_loopback
    else if m.listenonly
    then Regs.con_mode_listenonly
    else if m.fd
    then Regs.con_mode_mixed
    else Regs.con_mode_can2_0

module _ ⦃env : Env⦄ where
  unfoldable pub chip_get_mode : M ℕ
  chip_get_mode = do r ← call (reg_read Regs.con); pure (field_get Regs.con_opmod_mask r.val)

  -- Wait for the mode that was asked for, unless it is sleep or the caller does not wait.
  unfoldable pub chip_wait_mode : ℕ → Bool → M (Unit {0})
  chip_wait_mode mode_req nowait =
      if mode_req == Regs.con_mode_sleep || nowait
      then pure tt
      else call_ (reg_poll Regs.con (field Regs.con_opmod_mask.hi Regs.con_opmod_mask.lo mode_req))

  -- __mcp251xfd_chip_set_mode
  unfoldable pub chip_set_mode_wait : ℕ → Bool → M (Unit {0})
  unfolding chip_wait_mode
  chip_set_mode_wait mode_req nowait = do
    p ← get
    if p.dv_noslp && mode_req == Regs.con_mode_sleep then pure tt else (do
      call (
          reg_update_bits Regs.con (genmask Regs.con_reqop_mask)
            (field_prep Regs.con_reqop_mask mode_req))
      chip_wait_mode mode_req nowait)

  unfoldable pub chip_set_mode : ℕ → M (Unit {0})
  unfolding chip_set_mode_wait
  chip_set_mode mode_req = chip_set_mode_wait mode_req false

  -- __mcp251xfd_chip_set_normal_mode
  unfoldable pub chip_set_normal_mode_wait : Bool → M (Unit {0})
  unfolding get_normal_mode chip_set_mode_wait
  chip_set_normal_mode_wait nowait = do
    p ← get
    chip_set_mode_wait (get_normal_mode p.ctrlmode) nowait

  unfoldable pub chip_set_normal_mode : M (Unit {0})
  unfolding chip_set_normal_mode_wait
  chip_set_normal_mode = chip_set_normal_mode_wait false

  unfoldable pub chip_set_normal_mode_nowait : M (Unit {0})
  unfolding chip_set_normal_mode_wait
  chip_set_normal_mode_nowait = chip_set_normal_mode_wait true
