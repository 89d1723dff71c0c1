-- ===== src/Mcp251xfd/Configure/Timing.antt =====
-- The bit timing that mcp251xfd_set_bittiming writes to the chip, and the limits for it that the driver
-- gives to the CAN stack.
use yocto_layers.Common.{
  ℕ, ◌+◌, ◌*◌, ◌%◌, ◌^◌, ◌≤◌, ◌<◌, bit_or, ◌≡◌, ap, ◌∙◌, Bool, true, Option, none, some, List, [],
  ◌∷◌, ◌==◌, if◌then◌else◌, u32, sub32, arith,
}
use mathlib.Core.Option
use yocto_layers.Common.Fields.{or_fields}
use yocto_layers.Mcp251xfd.Regs
use yocto_layers.Mcp251xfd.Regs.{field_get, field_prep, Field}
use yocto_layers.Mcp251xfd.Monad.{Env, Drv}
use yocto_layers.Mcp251xfd.State.{Errno, Call, Bittiming, reg_write}
use yocto_layers.Mcp251xfd.Post.{Ends, returns, called-Ends, when-Ends}
use yocto_layers.Mcp251xfd.Configure.{con_config, nbtcfg_val, dbtcfg_val, tdc_val, set_bittiming}

-- struct can_bittiming_const
pub record BittimingConst : Type 0 where
  pub tseg1_min : ℕ
  pub tseg1_max : ℕ
  pub tseg2_min : ℕ
  pub tseg2_max : ℕ
  pub sjw_max : ℕ
  pub brp_min : ℕ
  pub brp_max : ℕ

abbrev pub bittiming_const : BittimingConst
bittiming_const = record {
  tseg1_min = 2;
  tseg1_max = 256;
  tseg2_min = 1;
  tseg2_max = 128;
  sjw_max = 128;
  brp_min = 1;
  brp_max = 256;
}

abbrev pub data_bittiming_const : BittimingConst
data_bittiming_const = record {
  tseg1_min = 1;
  tseg1_max = 32;
  tseg2_min = 1;
  tseg2_max = 16;
  sjw_max = 16;
  brp_min = 1;
  brp_max = 256;
}

-- What the CAN stack keeps to: the limits, and a jump width of at least 1.
pub record Within (limits : BittimingConst) (bt : Bittiming) : Type 0 where
  pub tseg1_low : limits.tseg1_min ≤ bt.prop_seg + bt.phase_seg1
  pub tseg1_high : bt.prop_seg + bt.phase_seg1 ≤ limits.tseg1_max
  pub tseg2_low : limits.tseg2_min ≤ bt.phase_seg2
  pub tseg2_high : bt.phase_seg2 ≤ limits.tseg2_max
  pub sjw_low : 1 ≤ bt.sjw
  pub sjw_high : bt.sjw ≤ limits.sjw_max
  pub brp_low : limits.brp_min ≤ bt.brp
  pub brp_high : bt.brp ≤ limits.brp_max

-- What the chip counts: each field of a bit time register holds one less.
pub record Segments : Type 0 where
  pub brp : ℕ
  pub tseg1 : ℕ
  pub tseg2 : ℕ
  pub sjw : ℕ

abbrev pub segments : Bittiming → Segments
segments bt = record {
  brp = bt.brp;
  tseg1 = bt.prop_seg + bt.phase_seg1;
  tseg2 = bt.phase_seg2;
  sjw = bt.sjw;
}

abbrev pub nominal : ℕ → Segments
nominal v = record {
  brp = field_get Regs.nbtcfg_brp_mask v + 1;
  tseg1 = field_get Regs.nbtcfg_tseg1_mask v + 1;
  tseg2 = field_get Regs.nbtcfg_tseg2_mask v + 1;
  sjw = field_get Regs.nbtcfg_sjw_mask v + 1;
}

abbrev pub data_phase : ℕ → Segments
data_phase v = record {
  brp = field_get Regs.dbtcfg_brp_mask v + 1;
  tseg1 = field_get Regs.dbtcfg_tseg1_mask v + 1;
  tseg2 = field_get Regs.dbtcfg_tseg2_mask v + 1;
  sjw = field_get Regs.dbtcfg_sjw_mask v + 1;
}

-- The value written last to a register.
abbrev pub written : ℕ → List Call → Option ℕ
written reg [] = none
written reg (reg_write r v ∷ cs) = if r == reg then some v else written reg cs
written reg (_ ∷ cs) = written reg cs

-- Four fields side by side.
packed :
    (i j k a b c d : ℕ)
    → c * 2 ^ i + d < 2 ^ j
    → d < 2 ^ i
    → b * 2 ^ j + (c * 2 ^ i + d) < 2 ^ k
    → bit_or (a * 2 ^ k) (bit_or (b * 2 ^ j) (bit_or (c * 2 ^ i) d))
      ≡ a * 2 ^ k + (b * 2 ^ j + (c * 2 ^ i + d))
packed i j k a b c d h l m =
    ap (λ (t : ℕ). bit_or (a * 2 ^ k) (bit_or (b * 2 ^ j) t)) (or_fields i c d l)
    ∙ ap (bit_or (a * 2 ^ k)) (or_fields j b (c * 2 ^ i + d) h)
    ∙ or_fields k a (b * 2 ^ j + (c * 2 ^ i + d)) m

segments_eq :
    {x y : Segments} → x.brp ≡ y.brp → x.tseg1 ≡ y.tseg1 → x.tseg2 ≡ y.tseg2 → x.sjw ≡ y.sjw → x ≡ y
segments_eq p q r s = λ i. record { brp = p i; tseg1 = q i; tseg2 = r i; sjw = s i }

nominal-nbtcfg_val :
    (bt : Bittiming) → Within bittiming_const bt → nominal (nbtcfg_val bt) ≡ segments bt
unfolding nbtcfg_val
nominal-nbtcfg_val bt w =
    let a = sub32 bt.brp 1 % 2 ^ 8 in
    let b = sub32 (u32 (bt.prop_seg + bt.phase_seg1)) 1 % 2 ^ 8 in
    let c = sub32 bt.phase_seg2 1 % 2 ^ 7 in
    let d = sub32 bt.sjw 1 % 2 ^ 7 * 2 ^ 0 in
    let e : nbtcfg_val bt ≡ a * 2 ^ 24 + (b * 2 ^ 16 + (c * 2 ^ 8 + d)) =
      packed 8 16 24 a b c d (omega arith) (omega arith) (omega arith) in
    segments_eq (omega (arith, e, w.brp_low, w.brp_high))
      (omega (arith, e, w.tseg1_low, w.tseg1_high)) (omega (arith, e, w.tseg2_low, w.tseg2_high))
      (omega (arith, e, w.sjw_low, w.sjw_high))

data_phase-dbtcfg_val :
    (bt : Bittiming) → Within data_bittiming_const bt → data_phase (dbtcfg_val bt) ≡ segments bt
unfolding dbtcfg_val
data_phase-dbtcfg_val bt w =
    let a = sub32 bt.brp 1 % 2 ^ 8 in
    let b = sub32 (u32 (bt.prop_seg + bt.phase_seg1)) 1 % 2 ^ 5 in
    let c = sub32 bt.phase_seg2 1 % 2 ^ 4 in
    let d = sub32 bt.sjw 1 % 2 ^ 4 * 2 ^ 0 in
    let e : dbtcfg_val bt ≡ a * 2 ^ 24 + (b * 2 ^ 16 + (c * 2 ^ 8 + d)) =
      packed 8 16 24 a b c d (omega arith) (omega arith) (omega arith) in
    segments_eq (omega (arith, e, w.brp_low, w.brp_high))
      (omega (arith, e, w.tseg1_low, w.tseg1_high)) (omega (arith, e, w.tseg2_low, w.tseg2_high))
      (omega (arith, e, w.sjw_low, w.sjw_high))

abbrev pub AnyError : Errno → Drv → Type 0
AnyError e t = Unit {0}

-- The chip has been given the bit timings of the private data; that of the data phase in FD mode.
abbrev pub Programmed : Bool → Bittiming → Bittiming → Drv → Type 0
Programmed fd bt dbt t =
    (Option.map nominal (written Regs.nbtcfg t.calls) ≡ some (segments bt))
    × (fd ≡ true → Option.map data_phase (written Regs.dbtcfg t.calls) ≡ some (segments dbt))

-- Where both bit timings keep to the limits that the driver gives, and jump widths are at least 1,
-- set_bittiming comes to an end, and when it succeeds, the fields of NBTCFG as last written stand for
-- the nominal bit timing, and in FD mode those of DBTCFG for the data bit timing: none is cut off or
-- runs into its neighbour.
pub set_bittiming-Programmed :
    ⦃env : Env⦄ (s : Drv)
    → Within bittiming_const s.priv.bittiming
    → Within data_bittiming_const s.priv.data_bittiming
    → Ends
        (λ _ t. Programmed s.priv.ctrlmode.fd s.priv.bittiming s.priv.data_bittiming t)
        AnyError
        (set_bittiming s)
unfolding set_bittiming
set_bittiming-Programmed s w dw =
    let fd = s.priv.ctrlmode.fd in
    let slow = ap some (nominal-nbtcfg_val s.priv.bittiming w) in
    let fast = ap some (data_phase-dbtcfg_val s.priv.data_bittiming dw) in
    called-Ends (reg_write Regs.con (con_config s.priv.ctrlmode)) _ s
      (λ _.
        called-Ends (reg_write Regs.nbtcfg (nbtcfg_val s.priv.bittiming)) _ _
          (λ _.
            when-Ends fd _ _
              (λ _.
                called-Ends (reg_write Regs.dbtcfg (dbtcfg_val s.priv.data_bittiming)) _ _
                  (λ _.
                    called-Ends (reg_write Regs.tdc (tdc_val s.priv.data_bittiming)) _ _
                      (λ _. returns (slow, λ _. fast)) (λ _ _. tt))
                  (λ _ _. tt))
              (λ off. (slow, λ on. absurd (cc))))
          (λ _ _. tt))
      (λ _ _. tt)
