-- ===== src/Mcp251xfd/Reset.antt =====
-- Waking the chip and resetting it: mcp251xfd_chip_clock_enable, the soft reset with its retries, and
-- mcp251xfd_chip_clock_init.
pub mod Retry
use yocto_layers.Common.{
  ℕ, zero, suc, ◌+◌, ◌-◌, ◌*◌, ◌/◌, ◌%◌, ◌^◌, ◌≤◌, ◌<◌, min, max, bit_and, bit_or, bit_xor, ◌≡◌,
  refl, sym, ap, ap₂, ◌∙◌, ◌≢◌, ◌↔◌, ◌⊎◌, inl, inr, Bool, true, false, not, ◌&&◌, ◌||◌, Option,
  none, some, List, [], ◌∷◌, ◌++◌, map, length, get_elem?, get_or, set, take, drop, replicate, ltb,
  leb, ◌==◌, if◌then◌else◌, Bool-cases, u8, u16, u32, sub32, arith,
}
use yocto_layers.Mcp251xfd.Monad.{
  Env, Drv, Out, ok, err, stuck, M, pure, raise, ◌>>=◌, ◌>>◌, attempt, on_error, failing_with,
  return, get, modify, when, ask, call, call_, tell,
}
use yocto_layers.Mcp251xfd.State.{
  Errno, enodev, etimedout, Reply, reg_read, reg_write, reg_poll, masked, spi_write_then_read,
}
use yocto_layers.Mcp251xfd.Regs
use yocto_layers.Mcp251xfd.Regs.{field_prep}
use yocto_layers.Mcp251xfd.Spi.{cmd_reset}
use yocto_layers.Mcp251xfd.Mode.{chip_get_mode, chip_set_mode}

unfoldable pub osc_invalid : ℕ → Bool
osc_invalid reg = reg == 0x0 || reg == 0xffffffff

-- The reset value of the clock output divisor.
abbrev pub osc_clkodiv : ℕ
osc_clkodiv = field_prep Regs.osc_clkodiv_mask Regs.osc_clkodiv_10

unfoldable pub is_etimedout : Errno → Bool
is_etimedout etimedout = true
is_etimedout _ = false

-- `dv_iocon` and `dv_oscva` mean "not given" at this value, 0x01 << 31.
abbrev pub dv_unset : ℕ
dv_unset = 2 ^ 31

module _ ⦃env : Env⦄ where
  -- What the code makes of the poll's result: a bogus value counts as a missing chip, whatever the
  -- error.
  unfoldable pub clock_ready : Reply → M (Unit {0})
  unfolding osc_invalid
  clock_ready r = if osc_invalid r.val then raise enodev else return r.err

  unfoldable pub chip_clock_enable : M (Unit {0})
  unfolding clock_ready
  chip_clock_enable = do
    call (reg_write Regs.osc osc_clkodiv)
    r ← ask (reg_poll Regs.osc (masked (bit_or Regs.osc_oscrdy Regs.osc_pllrdy) Regs.osc_oscrdy))
    clock_ready r

  unfoldable pub chip_softreset_do : M (Unit {0})
  unfolding chip_clock_enable
  chip_softreset_do = do
    chip_clock_enable
    chip_set_mode Regs.con_mode_config
    call_ (spi_write_then_read cmd_reset)

  unfoldable pub chip_softreset_check : M (Unit {0})
  chip_softreset_check = do
    mode ← chip_get_mode
    if mode == Regs.con_mode_config
        then (do
          r ← call (reg_read Regs.osc)
          if r.val == bit_or Regs.osc_oscrdy osc_clkodiv then pure tt else raise etimedout)
        else raise etimedout

  -- One round of the loop: both halves are followed by the same two tests of `err`.
  unfoldable pub softreset_round : M (Unit {0})
  unfolding chip_softreset_do chip_softreset_check
  softreset_round = chip_softreset_do >> chip_softreset_check

  -- The `for` loop with the rounds left and the last error.
  unfoldable pub softreset_loop : ℕ → Errno → M (Unit {0})
  unfolding softreset_round is_etimedout
  softreset_loop zero last s = err last s
  softreset_loop (suc left) last s = elim (softreset_round s) [
    | ok _ t ↦ ok tt t
    | err e t ↦ elim (is_etimedout e) [ true ↦ softreset_loop left e t | false ↦ err e t ]
    | stuck ↦ stuck
  ]

  unfoldable pub chip_softreset : M (Unit {0})
  unfolding softreset_loop
  chip_softreset = softreset_loop Regs.softreset_retries_max etimedout

  unfoldable pub chip_clock_init : M (Unit {0})
  chip_clock_init = do
    p ← get
    let default = bit_or Regs.osc_lpmen osc_clkodiv
    call (reg_write Regs.osc (if p.dv_oscva == dv_unset then default else p.dv_oscva))
    call_ (reg_write Regs.tscon Regs.tscon_tbcen)
