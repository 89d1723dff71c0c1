-- ===== src/Mcp251xfd/Errors/States.antt =====
-- The state of the CAN interface after mcp251xfd_handle_cerrif.
use yocto_layers.Common.{
  ℕ, ◌∙◌, ◌||◌, ◌/◌, ◌%◌, ◌^◌, if◌then◌else◌, Bool, true, false, ◌≡◌, refl, sym, subst, ◌==◌,
  ==_iff, Option, none, some, ◌∷◌, List, arith,
}
use yocto_layers.Mcp251xfd.Regs
use yocto_layers.Mcp251xfd.Monad.{
  Env, Drv, M, ask, Out, ok, err, stuck, ◌>>=◌, ◌>>◌, pure, modify, when,
}
use yocto_layers.Mcp251xfd.State.{
  Errno, Call, CanFrame, CanState, error_active, error_warning, error_passive, bus_off, stopped,
  sleeping, state_rank, Reply, BerrCounter, reg_read, can_change_state, alloc_can_err_skb,
}
use yocto_layers.Mcp251xfd.Post.{Ends, returns, fails, called-Ends, choose-Ends, weaken-Ends}
use yocto_layers.Mcp251xfd.Does.{
  Does, Keeps, Neutral, pure-Does, get-Does, if-Does, bind-Does, then-Does, attempt-Does,
  attempt-bind-Does, tell-Keeps, modify-Keeps, modify-Does, call-Keeps,
}
use yocto_layers.Mcp251xfd.Chip.Quiet.{
  Word, set_mode-Keeps, interrupts_disable-Keeps, rx_int_disable-Keeps,
}
use yocto_layers.Mcp251xfd.Rx.{queue_sorted}
use yocto_layers.Mcp251xfd.Rx.Frame.{any_bit_lem}
use yocto_layers.Mcp251xfd.Chip.{
  chip_stop, is_bus_off, read_berr_counter, get_berr_counter, berr_counter,
}
use yocto_layers.Mcp251xfd.Errors.{
  trec_tx_state, trec_rx_state, max_state, alloc_err_skb, enter_bus_off, report_state, save_bec,
  handle_cerrif,
}

same_rank : (a b : CanState) → state_rank a ≡ state_rank b → a ≡ b
same_rank a b h = ground arith

abbrev pub In : CanState → Drv → Type 0
In c t = t.priv.can_state ≡ c

excused :
    {A : Type 0} {I K : Drv → Type 0} {o : Out (Option A)}
    → Ends (λ _ t. I t) (λ _ t. I t) o
    → Ends
        (λ _ t. I t)
        (λ _ t. K t)
        (elim o [ ok r t ↦ ok r t | err e t ↦ ok none t | stuck ↦ stuck ])
excused (returns h) = returns h
excused (fails h) = returns h

module _ (c : CanState) ⦃env : Env⦄ where
  abbrev Stays {ℓ} : {A : Type ℓ} → M A → Type ℓ
  Stays m = Keeps (In c) m

  Word-In : (w : Call) → Word w → Neutral (In c) w
  Word-In w k s i = i

  chip_stop-In : {d : CanState} → Does (In d) (In c) (In c) (chip_stop c)
  unfolding chip_stop
  chip_stop-In = then-Does (modify-Does _ (λ s i. refl)) (
      then-Does (attempt-Does (interrupts_disable-Keeps (In c) Word-In)) (
        then-Does (attempt-Does (rx_int_disable-Keeps (In c) Word-In))
          (set_mode-Keeps (In c) Word-In Regs.con_mode_sleep)))

  read_berr-Stays : Stays read_berr_counter
  unfolding read_berr_counter
  read_berr-Stays = bind-Does get-Does λ p.
      if-Does p.dv_nober (pure-Does none)
        (bind-Does (call-Keeps _ (λ s i. i)) λ r. pure-Does (some (berr_counter r.val)))

  get_berr-Stays : Stays get_berr_counter
  unfolding get_berr_counter
  get_berr-Stays = bind-Does get-Does λ p.
      if-Does p.if_up (if-Does (is_bus_off p.can_state) (pure-Does (some p.bec)) read_berr-Stays)
        (pure-Does none)

  queue_sorted-Stays : (frame : CanFrame) (ts : ℕ) → Stays (queue_sorted frame ts)
  unfolding queue_sorted
  queue_sorted-Stays frame ts =
      attempt-bind-Does _ (call-Keeps _ (λ s i. i)) (pure-Does tt) (λ e. modify-Keeps _ (λ s i. i))

  report-Stays : (d : CanState) (cf : CanFrame) (ts : ℕ) → Stays (report_state d cf ts)
  unfolding report_state
  report-Stays d cf ts =
      if-Does (is_bus_off d) (queue_sorted-Stays cf ts)
        (bind-Does get_berr-Stays λ got. queue_sorted-Stays _ ts)

  alloc-Stays : {K : Drv → Type 0} → Does (In c) (In c) K alloc_err_skb
  unfolding alloc_err_skb
  alloc-Stays = record {
    runs = λ s i. excused (
        (bind-Does {I = In c} {K = In c} (call-Keeps (reg_read Regs.tbc) (λ t j. j)) λ ts.
            bind-Does (call-Keeps alloc_can_err_skb (λ t j. j))
              λ skb. pure-Does (some (skb.frame, ts.val))).runs
          s i);
  }

save_bec-In :
    (o : Option BerrCounter) (c : CanState) (s : Drv)
    → In c s
    → In c (record s { priv = save_bec o s.priv })
save_bec-In none c s i = i
save_bec-In (some b) c s i = i

enter_bus_off-In : ⦃env : Env⦄ → Keeps (In bus_off) enter_bus_off
unfolding enter_bus_off
enter_bus_off-In = bind-Does (read_berr-Stays bus_off) λ saved.
    then-Does (modify-Does (save_bec saved) (λ s i. save_bec-In saved bus_off s i))
      (then-Does (attempt-Does (chip_stop-In bus_off)) (tell-Keeps _ (λ s i. i)))

-- The worse of two states, which are in this order: active, warning, passive, bus off, stopped, sleeping.
abbrev pub worse : CanState → CanState → CanState
worse error_active b = b
worse error_warning error_active = error_warning
worse error_warning b = b
worse error_passive error_active = error_passive
worse error_passive error_warning = error_passive
worse error_passive b = b
worse bus_off stopped = stopped
worse bus_off sleeping = sleeping
worse bus_off b = bus_off
worse stopped sleeping = sleeping
worse stopped b = stopped
worse sleeping b = sleeping

abbrev bit : ℕ → ℕ → Bool
bit v k = v / 2 ^ k % 2 == 1

-- can_change_state stores the worse of the two states, as it is documented to do.
abbrev pub ChangesState : Env → Type 0
ChangesState env =
    (cf : Option CanFrame) (tx rx : CanState) (cs : List Call)
    → (env.answer (can_change_state cf tx rx ∷ cs)).state ≡ worse tx rx

-- The state that a value of TREC shows: bus off of the transmitter (bit 21), else one of the directions
-- passive (bits 20 and 19), else a warning for one of them (bits 18 and 17).
abbrev pub trec_state : ℕ → CanState
trec_state trec =
    if bit trec 21
    then bus_off
    else if bit trec 20 || bit trec 19
    then error_passive
    else if bit trec 18 || bit trec 17
    then error_warning
    else error_active

worse-max : (a b : CanState) → max_state a b ≡ worse a b
worse-max a b = ground arith

shown :
    (bo tp rp tw rw : Bool)
    → max_state
        (if bo
          then bus_off
          else if tp
          then error_passive
          else if tw
          then error_warning
          else error_active)
        (if rp then error_passive else if rw then error_warning else error_active)
      ≡ (if bo
          then bus_off
          else if tp || rp
          then error_passive
          else if tw || rw
          then error_warning
          else error_active)
shown bo tp rp tw rw = ground arith

trec_state-max : (trec : ℕ) → max_state (trec_tx_state trec) (trec_rx_state trec) ≡ trec_state trec
unfolding trec_tx_state trec_rx_state
trec_state-max trec =
    rw
      (
        any_bit_lem 21 trec,
        any_bit_lem 20 trec,
        any_bit_lem 19 trec,
        any_bit_lem 18 trec,
        any_bit_lem 17 trec,
      )
      (shown (bit trec 21) (bit trec 20) (bit trec 19) (bit trec 18) (bit trec 17))

abbrev pub AnyState : Errno → Drv → Type 0
AnyState e t = Unit {0}

bus_off_lem : (d : CanState) → is_bus_off d ≡ true → d ≡ bus_off
unfolding is_bus_off
bus_off_lem bus_off h = refl
bus_off_lem error_active h = cc
bus_off_lem error_warning h = cc
bus_off_lem error_passive h = cc
bus_off_lem stopped h = cc
bus_off_lem sleeping h = cc

entered :
    (b : Bool) (d : CanState) ⦃env : Env⦄ → is_bus_off d ≡ b → Keeps (In d) (when b enter_bus_off)
entered false d e = pure-Does tt
entered true d e = subst (λ c. Keeps (In c) enter_bus_off) (sym (bus_off_lem d e)) enter_bus_off-In

abbrev told : Option (CanFrame × ℕ) → Option CanFrame
told none = none
told (some (cf, ts)) = some cf

-- What follows the change of the state.
reported :
    (skb : Option (CanFrame × ℕ)) (c d : CanState) (r : Reply) ⦃env : Env⦄
    → r.state ≡ d
    → Does {0} (In c) (In d) (In d) (do
      modify (λ q. record q { can_state = r.state })
      when (is_bus_off d) enter_bus_off
      elim skb [ none ↦ pure tt | some (cf, ts) ↦ report_state d r.frame ts ])
reported none c d r e =
    then-Does (modify-Does (λ q. record q { can_state = r.state }) (λ s i. e))
      (then-Does (entered (is_bus_off d) d refl) (pure-Does tt))
reported (some (cf, ts)) c d r e =
    then-Does (modify-Does (λ q. record q { can_state = r.state }) (λ s i. e))
      (then-Does (entered (is_bus_off d) d refl) (report-Stays d d r.frame ts))

changing :
    (c tx rx : CanState) (skb : Option (CanFrame × ℕ)) ⦃env : Env⦄
    → ChangesState env
    → Does {0} (In c) (In (max_state tx rx)) (In (max_state tx rx)) (do
      changed ← ask (can_change_state (told skb) tx rx)
      modify (λ q. record q { can_state = changed.state })
      when (is_bus_off (max_state tx rx)) enter_bus_off
      elim skb [ none ↦ pure tt | some (cf, ts) ↦ report_state (max_state tx rx) changed.frame ts ])
changing c tx rx skb ⦃env⦄ changes = record {
  runs = λ s i.
      (reported skb c (max_state tx rx) (env.answer (can_change_state (told skb) tx rx ∷ s.calls))
          (changes (told skb) tx rx s.calls ∙ sym (worse-max tx rx))).runs
        (record s { calls = can_change_state (told skb) tx rx ∷ s.calls }) i;
}

-- Where can_change_state stores the worse of the two states it is given, the handler of state changes
-- comes to an end for every sequence of replies, and when it succeeds the state of the interface is the
-- one that the TREC register showed, in bus off too, whatever the state was before.
pub handle_cerrif-In :
    ⦃env : Env⦄ (s : Drv)
    → ChangesState env
    → Ends
        (λ _ t. In (trec_state (env.answer (reg_read Regs.trec ∷ s.calls)).val) t)
        AnyState
        (handle_cerrif s)
unfolding handle_cerrif
handle_cerrif-In ⦃env⦄ s changes =
    let trec = (env.answer (reg_read Regs.trec ∷ s.calls)).val in
    let d = max_state (trec_tx_state trec) (trec_rx_state trec) in
    let tx = trec_tx_state trec in
    let rx = trec_rx_state trec in
    called-Ends _ _ s
      (λ _.
        choose-Ends (state_rank d == state_rank s.priv.can_state) _ _ _
          (λ same.
            returns
              (sym (same_rank d s.priv.can_state ((==_iff _ _).0 same)) ∙ trec_state-max trec))
          (λ _.
            weaken-Ends
              ((bind-Does {I = In s.priv.can_state} {J = In s.priv.can_state} {K = In d} {L = In d}
                  (alloc-Stays s.priv.can_state)
                  λ skb. changing s.priv.can_state tx rx skb changes).runs
                _ refl)
              (λ _ t i. i ∙ trec_state-max trec) (λ _ _ _. tt)))
      (λ _ _. tt)
