-- ===== src/Mcp251xfd/Device/Calm.antt =====
-- The code that talks to the chip, and what the driver holds of the kernel meanwhile.
pub mod Setup
pub mod Memory
use yocto_layers.Common.{ℕ, suc, ◌+◌, ◌*◌, u16, ◌≡◌, refl, ap, ◌∙◌, none, List, [], ◌∷◌, length}
use yocto_layers.Mcp251xfd.Monad.{Env, M}
use yocto_layers.Mcp251xfd.State.{Call, CanState, Quirks, RxRing, kzalloc, kfree, stopped}
use yocto_layers.Mcp251xfd.Regs
use yocto_layers.Mcp251xfd.Does.{
  Keeps, Neutral, modify-Does, then-Does, attempt-Does, on_error-Does,
}
use yocto_layers.Mcp251xfd.Mode.{chip_set_mode}
use yocto_layers.Mcp251xfd.Reset.{chip_softreset}
use yocto_layers.Mcp251xfd.Configure.{
  chip_rx_int_enable, chip_rx_int_disable, chip_interrupts_enable, chip_interrupts_disable,
}
use yocto_layers.Mcp251xfd.Setup.{ring_init, init_rx_rings}
use yocto_layers.Mcp251xfd.Chip.{chip_stop, chip_start}
use yocto_layers.Mcp251xfd.Chip.Quiet.{
  Word, reads, writes, updates, polls, fills, resets, set_mode-Keeps, normal_mode-Keeps,
  softreset-Keeps, clock_init-Keeps, bittiming-Keeps, rx_int_enable-Keeps, rx_int_disable-Keeps,
  fifo_init-Keeps, ecc_init-Keeps, interrupts_enable-Keeps, interrupts_disable-Keeps,
}
use yocto_layers.Mcp251xfd.Device.Held.{Held, Wiring, wiring, effect, Owns}
use yocto_layers.Mcp251xfd.Device.Power.{call-Owns, tell-Owns}

length-init_rx_rings :
    (quirks : Quirks) (i base : ℕ) (rings : List RxRing)
    → length (init_rx_rings quirks i base rings) ≡ length rings
unfolding init_rx_rings
length-init_rx_rings quirks i base [] = refl
length-init_rx_rings quirks i base (r ∷ rs) =
    ap suc (length-init_rx_rings quirks (i + 1) (u16 (base + r.obj_size * r.obj_num)) rs)

module _ (h : Held) (w : Wiring) ⦃env : Env⦄ where
  abbrev pub Calm {ℓ} : {A : Type ℓ} → M A → Type ℓ
  Calm m = Keeps (Owns h w) m

  Word-Owns : (c : Call) → Word c → Neutral (Owns h w) c
  Word-Owns _ reads s i = i
  Word-Owns _ writes s i = i
  Word-Owns _ updates s i = i
  Word-Owns _ polls s i = i
  Word-Owns _ fills s i = i
  Word-Owns _ resets s i = i

  pub set_mode-Calm : (mode : ℕ) → Calm (chip_set_mode mode)
  set_mode-Calm = set_mode-Keeps (Owns h w) Word-Owns

  pub softreset-Calm : Calm chip_softreset
  softreset-Calm = softreset-Keeps (Owns h w) Word-Owns

  pub rx_int_enable-Calm : Calm chip_rx_int_enable
  rx_int_enable-Calm = rx_int_enable-Keeps (Owns h w) Word-Owns

  pub rx_int_disable-Calm : Calm chip_rx_int_disable
  rx_int_disable-Calm = rx_int_disable-Keeps (Owns h w) Word-Owns

  pub interrupts_enable-Calm : Calm chip_interrupts_enable
  interrupts_enable-Calm = interrupts_enable-Keeps (Owns h w) Word-Owns

  pub interrupts_disable-Calm : Calm chip_interrupts_disable
  interrupts_disable-Calm = interrupts_disable-Keeps (Owns h w) Word-Owns

  pub chip_stop-Calm : (state : CanState) → Calm (chip_stop state)
  unfolding chip_stop
  chip_stop-Calm state = then-Does (modify-Does _ (λ s i. i)) (
      then-Does (attempt-Does interrupts_disable-Calm)
        (then-Does (attempt-Does rx_int_disable-Calm) (set_mode-Calm Regs.con_mode_sleep)))

  pub chip_start-Calm : Calm chip_start
  unfolding chip_start ring_init
  chip_start-Calm =
      then-Does
        (on_error-Does
          (then-Does softreset-Calm (
            then-Does (clock_init-Keeps (Owns h w) Word-Owns)
              (bittiming-Keeps (Owns h w) Word-Owns)))
          (chip_stop-Calm stopped))
        (then-Does rx_int_enable-Calm (
          on_error-Does
            (then-Does
              (ecc_init-Keeps (Owns h w) Word-Owns (Owns (effect (kzalloc Regs.ram_size) none h) w)
                (λ s i. i) (call-Owns (kzalloc Regs.ram_size) (λ e. refl)) (λ s i. i)
                (tell-Owns kfree (λ e. refl)))
              (then-Does
                (modify-Does ring_init (λ s i. (
                  i.0,
                  ap (λ n. record (wiring s.priv) { rings = n })
                        (length-init_rx_rings _ _ _ s.priv.rx)
                      ∙ i.1,
                )))
                (then-Does (fifo_init-Keeps (Owns h w) Word-Owns)
                  (then-Does (modify-Does _ (λ s i. i)) (normal_mode-Keeps (Owns h w) Word-Owns)))))
            (chip_stop-Calm stopped)))
