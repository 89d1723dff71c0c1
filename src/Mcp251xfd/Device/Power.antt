-- ===== src/Mcp251xfd/Device/Power.antt =====
-- What each call that takes or gives back a resource does to what the driver holds.
use yocto_layers.Common.{
  ℕ, Bool, true, false, ◌≡◌, refl, ap, ap₂, ◌∙◌, Option, none, some, List, ◌∷◌,
}
use yocto_layers.Mcp251xfd.Monad.{Env, Drv, call, tell, call_, when}
use yocto_layers.Mcp251xfd.State.{
  Errno, Call, clk_prepare_enable, clk_disable_unprepare, vdd_enable, vdd_disable, xceiver_enable,
  xceiver_disable, usleep,
}
use yocto_layers.Mcp251xfd.Does.{
  Does, pure-Does, raise-Does, bind-Does, then-Does, attempt-bind-Does, settle-Does, tell-Does,
  weaken-Does, tell-Keeps,
}
use yocto_layers.Mcp251xfd.Device.{
  power_vdd_enable, power_vdd_disable, transceiver_enable, transceiver_disable, clks_and_vdd_enable,
  clks_and_vdd_disable,
}
use yocto_layers.Mcp251xfd.Device.Held.{Held, Wiring, effect, held, Owns}

-- What is held after a call of a regulator that may not be there.
abbrev pub switched : Bool → Call → Held → Held
switched true c h = effect c none h
switched false c h = h

-- The clock and the regulator are on once more.
abbrev pub powered : Bool → Held → Held
powered v h = switched v vdd_enable (effect clk_prepare_enable none h)

module _ ⦃env : Env⦄ where
  -- This call never fails.
  abbrev pub Reliable : Call → Type 0
  Reliable c = (cs : List Call) → (env.answer (c ∷ cs)).err ≡ none

  took :
      {h : Held} (c : Call) (s : Drv) (e : Option Errno)
      → (env.answer (c ∷ s.calls)).err ≡ e
      → held s.calls ≡ h
      → held (c ∷ s.calls) ≡ effect c e h
  took c s e q i = ap₂ (effect c) q i

  module _ {h : Held} {w : Wiring} where
    pub call-Owns :
        (c : Call)
        → ((e : Errno) → effect c (some e) h ≡ h)
        → Does (Owns h w) (Owns (effect c none h) w) (Owns h w) (call c)
    call-Owns c quiet =
        settle-Does c (λ s i q. (took c s none q i.0, i.1))
          (λ s i e q. (took c s (some e) q i.0 ∙ quiet e, i.1))

    pub tell-Owns :
        {K : Drv → Type 0} (c : Call)
        → ((e : Option Errno) → effect c e h ≡ effect c none h)
        → Does (Owns h w) (Owns (effect c none h) w) K (tell c)
    tell-Owns c always =
        tell-Does c (λ s i. (took c s _ refl i.0 ∙ always (env.answer (c ∷ s.calls)).err, i.1))

    -- A call that takes its resource even when it fails.
    pub call-always :
        (c : Call)
        → ((e : Option Errno) → effect c e h ≡ effect c none h)
        → Does (Owns h w) (Owns (effect c none h) w) (Owns (effect c none h) w) (call c)
    call-always c always =
        settle-Does c (λ s i q. (took c s none q i.0, i.1))
          (λ s i e q. (took c s (some e) q i.0 ∙ always (some e), i.1))

    pub call_-Owns :
        (c : Call)
        → ((e : Errno) → effect c (some e) h ≡ h)
        → Does (Owns h w) (Owns (effect c none h) w) (Owns h w) (call_ c)
    call_-Owns c quiet = bind-Does (call-Owns c quiet) (λ _. pure-Does tt)

    infallible-Owns :
        {K : Drv → Type 0} (c : Call)
        → Reliable c
        → Does (Owns h w) (Owns (effect c none h) w) K (call_ c)
    infallible-Owns c r =
        bind-Does
          (settle-Does c (λ s i q. (took c s none q i.0, i.1)) (λ s i e q. cc (q, r s.calls)))
          (λ _. pure-Does tt)

    -- A regulator that is there exactly when `b`.
    pub switch-on :
        (c : Call) (b there : Bool)
        → b ≡ there
        → ((e : Errno) → effect c (some e) h ≡ h)
        → Does (Owns h w) (Owns (switched there c h) w) (Owns h w) (when b (call_ c))
    switch-on c true true q quiet = call_-Owns c quiet
    switch-on c false false q quiet = pure-Does tt
    switch-on c true false q quiet = cc
    switch-on c false true q quiet = cc

    -- Switching it on where that does not fail.
    pub switch-on-again :
        {K : Drv → Type 0} (c : Call) (b there : Bool)
        → b ≡ there
        → Reliable c
        → Does (Owns h w) (Owns (switched there c h) w) K (when b (call_ c))
    switch-on-again {K} c true true q r = infallible-Owns {K = K} c r
    switch-on-again c false false q r = pure-Does tt
    switch-on-again c true false q r = cc
    switch-on-again c false true q r = cc

  module _ {h : Held} {w : Wiring} where
    -- Switching it off again.
    pub switch-back :
        {K : Drv → Type 0} (on off : Call) (b there : Bool)
        → b ≡ there
        → effect off none (effect on none h) ≡ h
        → Reliable off
        → Does (Owns (switched there on h) w) (Owns h w) K (when b (call_ off))
    switch-back {K} on off true true q back r =
        weaken-Does {K' = K} (infallible-Owns {h = effect on none h} {w = w} {K = K} off r)
          (λ s i. i) (λ s i. (i.0 ∙ back, i.1)) (λ s k. k)
    switch-back on off false false q back r = pure-Does tt
    switch-back on off true false q back r = cc
    switch-back on off false true q back r = cc

-- Clocks and regulators of the device.
module _ {h : Held} {w : Wiring} (sizeof_rx_ring : ℕ) ⦃env : Env⦄ where
  vdd_on :
      Does
        (Owns h w)
        (Owns (switched w.vdd vdd_enable h) w)
        (Owns h w)
        (power_vdd_enable sizeof_rx_ring)
  unfolding power_vdd_enable
  vdd_on = record {
    runs = λ s i.
        (switch-on vdd_enable s.priv.reg_vdd w.vdd (ap (λ k. k.vdd) i.1) (λ e. refl)).runs s i;
  }

  vdd_on_again :
      {K : Drv → Type 0}
      → Reliable vdd_enable
      → Does (Owns h w) (Owns (switched w.vdd vdd_enable h) w) K (power_vdd_enable sizeof_rx_ring)
  unfolding power_vdd_enable
  vdd_on_again r = record {
    runs =
        λ s i. (switch-on-again vdd_enable s.priv.reg_vdd w.vdd (ap (λ k. k.vdd) i.1) r).runs s i;
  }

  vdd_off :
      {K : Drv → Type 0}
      → Reliable vdd_disable
      → Does (Owns (switched w.vdd vdd_enable h) w) (Owns h w) K (power_vdd_disable sizeof_rx_ring)
  unfolding power_vdd_disable
  vdd_off r = record {
    runs = λ s i.
        (switch-back vdd_enable vdd_disable s.priv.reg_vdd w.vdd (ap (λ k. k.vdd) i.1) refl r).runs
          s i;
  }

module _ {h : Held} {w : Wiring} (sizeof_rx_ring : ℕ) ⦃env : Env⦄ where
  pub power-on :
      Does (Owns h w) (Owns (powered w.vdd h) w) (Owns h w) (clks_and_vdd_enable sizeof_rx_ring)
  unfolding clks_and_vdd_enable
  power-on = bind-Does (call-Owns clk_prepare_enable (λ e. refl)) λ _.
      attempt-bind-Does {L = Owns (powered w.vdd h) w} {N = Owns h w} _ (vdd_on sizeof_rx_ring)
        (then-Does {0, 0} (pure-Does tt) (then-Does (tell-Keeps usleep (λ s i. i)) (pure-Does tt)))
        (λ e.
          then-Does {J = Owns h w} (tell-Owns clk_disable_unprepare (λ _. refl))
            (then-Does (tell-Keeps usleep (λ s i. i)) (raise-Does e)))

  pub power-off :
      {K : Drv → Type 0}
      → Reliable vdd_disable
      → Does (Owns (powered w.vdd h) w) (Owns h w) K (clks_and_vdd_disable sizeof_rx_ring)
  unfolding clks_and_vdd_disable
  power-off r = then-Does (vdd_off sizeof_rx_ring r) (tell-Owns clk_disable_unprepare (λ _. refl))

  -- Where neither the clock nor the regulator fails to be switched on.
  pub power-on-again :
      {K : Drv → Type 0}
      → Reliable clk_prepare_enable
      → Reliable vdd_enable
      → Does (Owns h w) (Owns (powered w.vdd h) w) K (clks_and_vdd_enable sizeof_rx_ring)
  unfolding clks_and_vdd_enable
  power-on-again {K} rc rv =
      bind-Does {J = Owns (effect clk_prepare_enable none h) w}
        (settle-Does clk_prepare_enable (λ s i q. (took clk_prepare_enable s none q i.0, i.1))
          (λ s i e q. cc (q, rc s.calls)))
        λ _.
          attempt-bind-Does {J = Owns (powered w.vdd h) w} {K = λ _. ⊥} _
            (vdd_on_again sizeof_rx_ring rv)
            (then-Does {0, 0} (pure-Does tt)
              (then-Does (tell-Keeps usleep (λ s i. i)) (pure-Does tt)))
            (λ e. record { runs = λ s i. absurd i })

  pub transceiver-on :
      Does
        (Owns h w)
        (Owns (switched w.xceiver xceiver_enable h) w)
        (Owns h w)
        (transceiver_enable sizeof_rx_ring)
  unfolding transceiver_enable
  transceiver-on = record {
    runs = λ s i.
        (switch-on xceiver_enable s.priv.reg_xceiver w.xceiver (ap (λ k. k.xceiver) i.1)
            (λ e. refl)).runs
          s i;
  }

  pub transceiver-off :
      {K : Drv → Type 0}
      → Reliable xceiver_disable
      → Does
          (Owns (switched w.xceiver xceiver_enable h) w)
          (Owns h w)
          K
          (transceiver_disable sizeof_rx_ring)
  unfolding transceiver_disable
  transceiver-off r = record {
    runs = λ s i.
        (switch-back xceiver_enable xceiver_disable s.priv.reg_xceiver w.xceiver
            (ap (λ k. k.xceiver) i.1) refl r).runs
          s i;
  }
