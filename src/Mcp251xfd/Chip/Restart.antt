-- ===== src/Mcp251xfd/Chip/Restart.antt =====
-- How mcp251xfd_chip_start and mcp251xfd_set_mode leave the chip and the interface.
use yocto_layers.Common.{
  ℕ, Bool, true, false, ◌≡◌, ◌≢◌, refl, ap, arith, ◌⊎◌, inl, inr, Option, none, some, List, [], ◌∷◌,
  ◌==◌, if◌then◌else◌,
}
use yocto_layers.Mcp251xfd.Monad.{Env, Drv, M, ◌>>◌}
use yocto_layers.Mcp251xfd.State.{
  Errno, Call, CanState, error_active, stopped, reg_write, reg_update_bits, reg_poll, PollCond,
  netif_wake_queue,
}
use yocto_layers.Mcp251xfd.Regs
use yocto_layers.Mcp251xfd.Post.{Ends}
use yocto_layers.Mcp251xfd.Does.{
  Does, Keeps, Neutral, pure-Does, get-Does, when-Does, modify-Does, bind-Does, then-Does,
  attempt-Does, on_error-Does, settle-Does, call-Keeps, call_-Keeps, tell-Does, weaken-Does,
}
use yocto_layers.Mcp251xfd.Configure.{
  chip_rx_int_enable, chip_rx_int_disable, chip_interrupts_enable, chip_interrupts_disable,
  set_bittiming,
}
use yocto_layers.Mcp251xfd.Mode.{chip_set_mode}
use yocto_layers.Mcp251xfd.Reset.{chip_softreset, chip_clock_init}
use yocto_layers.Mcp251xfd.Setup.{ring_init}
use yocto_layers.Mcp251xfd.Chip.{chip_stop, chip_start, start, set_mode}
use yocto_layers.Mcp251xfd.Chip.Quiet.{
  Word, normal_mode-Keeps, mode_request-Keeps, softreset-Keeps, clock_init-Keeps, bittiming-Keeps,
  fifo_init-Keeps, ecc_init-Keeps,
}

-- What the last write to INT, the register that enables the interrupts, was to write, failed or not.
abbrev pub last_int : List Call → Option ℕ
last_int [] = none
last_int (reg_write reg val ∷ cs) = if reg == Regs.int then some val else last_int cs
last_int (_ ∷ cs) = last_int cs

abbrev State : CanState → Drv → Type 0
State c t = t.priv.can_state ≡ c

abbrev pub Stopped : Drv → Type 0
Stopped t = (t.priv.can_state ≡ stopped) × (last_int t.calls ≡ some 0)

-- The last call, which failed, was the write that sets up the pins, and the state is still `c`.
abbrev pub PinsFailed : ⦃env : Env⦄ → CanState → Drv → Type 0
PinsFailed ⦃env⦄ c t =
    (t.priv.can_state ≡ c)
    × (val : ℕ) × (before : List Call) × (e : Errno) × (t.calls ≡ reg_write Regs.iocon val ∷ before)
    × ((env.answer t.calls).err ≡ some e)

abbrev pub Failed : ⦃env : Env⦄ → CanState → Drv → Type 0
Failed c t = Stopped t ⊎ PinsFailed c t

abbrev Anyhow : Drv → Type 0
Anyhow t = Unit {0}

abbrev Enabled : Drv → Type 0
Enabled t =
    (t.priv.can_state ≡ error_active)
    × (val : ℕ) × (before : List Call) × (t.calls ≡ reg_write Regs.int val ∷ before)
    × (val ≢ 0)

-- The stack's queue runs again, after the interrupts were enabled as the last thing said to the chip.
abbrev pub Running : Drv → Type 0
Running t =
    (t.priv.can_state ≡ error_active)
    × (val : ℕ) × (before : List Call) × (t.calls
        ≡ netif_wake_queue ∷ reg_write Regs.int val ∷ before)
    × (val ≢ 0)

Word-State : (c : CanState) (w : Call) → Word w → Neutral (State c) w
Word-State c w k s i = i

module _ (c : CanState) ⦃env : Env⦄ where
  updating-Stopped : (reg mask val : ℕ) → Neutral Stopped (reg_update_bits reg mask val)
  updating-Stopped reg mask val s i = i

  polling-Stopped : (reg : ℕ) (cond : PollCond) → Neutral Stopped (reg_poll reg cond)
  polling-Stopped reg cond s i = i

  disable-Stopped : Does (State stopped) Stopped Stopped chip_interrupts_disable
  unfolding chip_interrupts_disable
  disable-Stopped =
      bind-Does (settle-Does _ (λ s i _. (i, refl)) (λ s i _ _. (i, refl)))
        λ _. bind-Does (call-Keeps _ (λ s i. i)) λ _. call_-Keeps _ (λ s i. i)

  rx_int_disable-Stopped : Keeps Stopped chip_rx_int_disable
  unfolding chip_rx_int_disable
  rx_int_disable-Stopped = bind-Does get-Does λ p. when-Does p.rx_int (call_-Keeps _ (λ s i. i))

  chip_stop-Stopped : {I : Drv → Type 0} → Does I Stopped Stopped (chip_stop stopped)
  unfolding chip_stop chip_set_mode
  chip_stop-Stopped = then-Does {J = State stopped} (modify-Does _ (λ s i. refl)) (
      then-Does (attempt-Does disable-Stopped) (
        then-Does (attempt-Does rx_int_disable-Stopped)
          (mode_request-Keeps Stopped updating-Stopped polling-Stopped Regs.con_mode_sleep false)))

  rx_int_enable-Failed : Does (State c) (State c) (Failed c) chip_rx_int_enable
  unfolding chip_rx_int_enable
  rx_int_enable-Failed = bind-Does get-Does λ p. when-Does p.rx_int (
      then-Does (tell-Does _ (λ s i. i)) (
        bind-Does (settle-Does _ (λ s i _. i) (λ s i e r. inr (i, _, _, e, refl, r)))
          λ _. pure-Does tt))

  -- An error of any kind is followed by chip_stop.
  anyway : {I J K : Drv → Type 0} {m : M (Unit {0})} → Does I J K m → Does I J Anyhow m
  anyway d = weaken-Does d (λ s i. i) (λ s i. i) (λ s _. tt)

  stop-Failed : Does Anyhow (Failed c) (Failed c) (chip_stop stopped)
  stop-Failed = weaken-Does {I = Anyhow} chip_stop-Stopped (λ s i. i) (λ s. inl) (λ s. inl)

  reset-State : Keeps (State c) (chip_softreset >> (chip_clock_init >> set_bittiming))
  reset-State = then-Does (softreset-Keeps (State c) (Word-State c)) (
      then-Does (clock_init-Keeps (State c) (Word-State c))
        (bittiming-Keeps (State c) (Word-State c)))

  chip_start-Started : Does (State c) (State error_active) (Failed c) chip_start
  unfolding chip_start ring_init
  chip_start-Started = then-Does (on_error-Does (anyway reset-State) stop-Failed) (
      then-Does rx_int_enable-Failed (
        on_error-Does
          (then-Does
            (anyway (
              ecc_init-Keeps (State c) (Word-State c) (State c) (λ s i. i) (call-Keeps _ (λ s i. i))
                (λ s i. i) (tell-Does _ (λ s i. i))))
            (then-Does (modify-Does ring_init (λ s i. i)) (
              then-Does (anyway (fifo_init-Keeps (State c) (Word-State c))) (
                then-Does {J = State error_active} (modify-Does _ (λ s i. refl))
                  (anyway (normal_mode-Keeps (State error_active) (Word-State error_active)))))))
          stop-Failed))

  either_nonzero : (b : Bool) {x y : ℕ} → x ≢ 0 → y ≢ 0 → (if b then x else y) ≢ 0
  either_nonzero true p q = p
  either_nonzero false p q = q

  interrupts_enable-Enabled : Does (State error_active) Enabled Anyhow chip_interrupts_enable
  unfolding chip_interrupts_enable
  interrupts_enable-Enabled = bind-Does get-Does λ p.
      bind-Does (settle-Does _ (λ s i _. i) (λ s _ _ _. tt)) λ _.
        bind-Does (settle-Does _ (λ s i _. i) (λ s _ _ _. tt)) λ _.
          bind-Does {J = Enabled}
            (settle-Does _
              (λ s i _. (
                i,
                _,
                _,
                refl,
                either_nonzero p.ctrlmode.berr_reporting (ground arith) (ground arith),
              ))
              (λ s _ _ _. tt))
            λ _. pure-Does tt

  start-Running : Does (State c) Running (Failed c) (set_mode start)
  unfolding set_mode
  start-Running = then-Does chip_start-Started (
      then-Does (on_error-Does interrupts_enable-Enabled stop-Failed)
        (tell-Does _ (λ s (i, v, cs, e, nz). (i, v, cs, ap (netif_wake_queue ∷◌) e, nz))))

pub set_mode-Restarts :
    ⦃env : Env⦄ (s : Drv)
    → Ends (λ _ t. Running t) (λ _ t. Failed s.priv.can_state t) (set_mode start s)
set_mode-Restarts s = (start-Running s.priv.can_state).runs s refl
