-- ===== src/Mcp251xfd/Rx/Frame.antt =====
-- What mcp251xfd_hw_rx_obj_to_skb makes of the words that mcp251xfd_tx_obj_from_skb writes.
use yocto_layers.Common.{
  ℕ, zero, suc, ◌-◌, Bool-cases, inl, inr, ◌+◌, ◌*◌, ◌/◌, ◌%◌, ◌^◌, ◌≤◌, ◌<◌, max, bit_and, bit_or,
  ◌≡◌, refl, sym, ap, ap₂, ◌∙◌, Bool, true, false, not, ◌&&◌, ◌==◌, if◌then◌else◌, arith, List,
}
use native.Mathlib.Nat.{one-le-pow}
use yocto_layers.Common.Bits.{or_digits}
use yocto_layers.Common.Words.{or_comm, zero-or, or_div, or_mod, and_field}
use yocto_layers.Common.Fields.{or-zero, or_fields}
use yocto_layers.Mcp251xfd.CanAbi
use yocto_layers.Mcp251xfd.Regs
use yocto_layers.Mcp251xfd.Regs.{any_bit, field_get, field_prep}
use yocto_layers.Mcp251xfd.Rx.{rx_can_id}
use yocto_layers.Mcp251xfd.Tx.{tx_id}

nonzero_digit : (d x p : ℕ) → d < 2 → x ≡ d * p → 1 ≤ p → not (x == 0) ≡ (d == 1)
nonzero_digit zero x p h e pos = ground arith
nonzero_digit (suc zero) x p h e pos = ground arith
nonzero_digit (suc (suc d)) x p h e pos = absurd (omega arith)

-- `v & BIT(k)` as a condition
pub any_bit_lem : (k v : ℕ) → any_bit v (2 ^ k) ≡ (v / 2 ^ k % 2 == 1)
any_bit_lem k v =
    let one : (2 ^ 1 - 1) * 2 ^ k ≡ 2 ^ k = omega arith in
    let mask : bit_and v (2 ^ k) ≡ v / 2 ^ k % 2 * 2 ^ k =
      ap (bit_and v) (sym one) ∙ and_field k 1 v in
    let digit : v / 2 ^ k % 2 < 2 = omega arith in
    nonzero_digit (v / 2 ^ k % 2) (bit_and v (2 ^ k)) (2 ^ k) digit mask
      (one-le-pow k 2 (omega arith))

or_digit : (k a b : ℕ) → bit_or a b / 2 ^ k % 2 ≡ max (a / 2 ^ k % 2) (b / 2 ^ k % 2)
or_digit k a b = omega (arith, or_div k a b, or_digits (a / 2 ^ k) (b / 2 ^ k))

-- The flags word: IDE, sequence number, length code, RTR, and the flags of CAN FD.
abbrev pub word : (a b c d e : ℕ) → ℕ
word a b c d e = bit_or (bit_or (bit_or a (bit_or b c)) d) e

word_digit :
    (k a b c d e : ℕ)
    → word a b c d e / 2 ^ k % 2
      ≡ max
          (max (max (a / 2 ^ k % 2) (max (b / 2 ^ k % 2) (c / 2 ^ k % 2))) (d / 2 ^ k % 2))
          (e / 2 ^ k % 2)
word_digit k a b c d e = omega (
  arith,
  or_digit k (bit_or (bit_or a (bit_or b c)) d) e,
  or_digit k (bit_or a (bit_or b c)) d,
  or_digit k a (bit_or b c),
  or_digit k b c,
)

word_low :
    (a b c d e : ℕ)
    → a % 16 ≡ 0
    → b % 16 ≡ 0
    → d % 16 ≡ 0
    → e % 16 ≡ 0
    → word a b c d e % 16 ≡ c % 16
word_low a b c d e pa pb pd pe =
    or_mod 4 (bit_or (bit_or a (bit_or b c)) d) e
    ∙ ap₂ bit_or (or_mod 4 (bit_or a (bit_or b c)) d) pe
    ∙ or-zero _
    ∙ ap₂ bit_or (or_mod 4 a (bit_or b c)) pd
    ∙ or-zero _
    ∙ ap₂ bit_or pa (or_mod 4 b c)
    ∙ zero-or _
    ∙ ap (λ (t : ℕ). bit_or t (c % 16)) pb
    ∙ zero-or (c % 16)

-- The words of an identifier of 18 and 11 bits.
tx_id_eff :
    (can_id : ℕ)
    → any_bit can_id CanAbi.eff_flag ≡ true
    → tx_id can_id ≡ can_id % 2 ^ 18 * 2 ^ 11 + can_id / 2 ^ 18 % 2 ^ 11
unfolding tx_id
tx_id_eff can_id h =
    let eid : field_prep Regs.obj_id_eid_mask (field_get Regs.frame_eff_eid_mask can_id)
        ≡ can_id % 2 ^ 18 * 2 ^ 11 =
      omega arith in
    let sid : field_prep Regs.obj_id_sid_mask (field_get Regs.frame_eff_sid_mask can_id)
        ≡ can_id / 2 ^ 18 % 2 ^ 11 =
      omega arith in
    rw h
      (ap₂ bit_or eid sid ∙ or_fields 11 (can_id % 2 ^ 18) (can_id / 2 ^ 18 % 2 ^ 11) (omega arith))

tx_id_std :
    (can_id : ℕ)
    → any_bit can_id CanAbi.eff_flag ≡ false
    → field_get Regs.obj_id_sid_mask (tx_id can_id) ≡ can_id % 2 ^ 11
unfolding tx_id
tx_id_std can_id h = rw h (omega arith)

-- The identifier that travels: 29 bits of an extended frame, 11 of a base frame.
unfoldable pub wire_id : ℕ → ℕ
wire_id can_id =
    if any_bit can_id CanAbi.eff_flag then 2 ^ 31 + can_id % 2 ^ 29 else can_id % 2 ^ 11

pub rx_can_id-tx_id :
    (can_id flags ts : ℕ) (payload : List ℕ)
    → any_bit flags Regs.obj_flags_ide ≡ any_bit can_id CanAbi.eff_flag
    → rx_can_id (record { id = tx_id can_id; flags = flags; ts = ts; payload = payload })
      ≡ wire_id can_id
unfolding rx_can_id wire_id
rx_can_id-tx_id can_id flags ts payload e = elim (Bool-cases (any_bit can_id CanAbi.eff_flag)) [
  | inl eff ↦
      let id : tx_id can_id ≡ can_id % 2 ^ 18 * 2 ^ 11 + can_id / 2 ^ 18 % 2 ^ 11 =
        tx_id_eff can_id eff in
      let eid : field_prep Regs.frame_eff_eid_mask (field_get Regs.obj_id_eid_mask (tx_id can_id))
          ≡ can_id % 2 ^ 18 =
        omega (arith, id) in
      let sid : field_prep Regs.frame_eff_sid_mask (field_get Regs.obj_id_sid_mask (tx_id can_id))
          ≡ can_id / 2 ^ 18 % 2 ^ 11 * 2 ^ 18 =
        omega (arith, id) in
      let both : bit_or (can_id % 2 ^ 18) (can_id / 2 ^ 18 % 2 ^ 11 * 2 ^ 18) ≡ can_id % 2 ^ 29 =
        or_comm _ _
        ∙ or_fields 18 (can_id / 2 ^ 18 % 2 ^ 11) (can_id % 2 ^ 18) (omega arith)
        ∙ omega arith in
      rw (e, eff)
        (ap (bit_or (2 ^ 31)) (ap₂ bit_or eid sid ∙ both)
          ∙ or_fields 31 1 (can_id % 2 ^ 29) (omega arith))
  | inr std ↦ rw (e, std) (tx_id_std can_id std)
]

abbrev pub on : Bool → ℕ → ℕ
on b x = if b then x else 0

flag : (k w : ℕ) (b : Bool) → w / 2 ^ k % 2 ≡ on b 1 → any_bit w (2 ^ k) ≡ b
flag k w true h = any_bit_lem k w ∙ ap (λ (t : ℕ). t == 1) h
flag k w false h = any_bit_lem k w ∙ ap (λ (t : ℕ). t == 1) h

-- The flags of CAN FD, where the frame is one.
abbrev pub fd_part : (fd esi brs : Bool) → ℕ
fd_part fd esi brs = if fd then bit_or (on esi (2 ^ 8)) (bit_or (2 ^ 7) (on brs (2 ^ 6))) else 0

abbrev FdDigits : (x : ℕ) (fd esi brs : Bool) → Type 0
FdDigits x fd esi brs =
    (x / 2 ^ 4 % 2 ≡ 0)
    × (x / 2 ^ 5 % 2 ≡ 0)
    × (x / 2 ^ 6 % 2 ≡ on (fd && brs) 1)
    × (x / 2 ^ 7 % 2 ≡ on fd 1)
    × (x / 2 ^ 8 % 2 ≡ on (fd && esi) 1)
    × (x % 16 ≡ 0)

fd_part-FdDigits : (fd esi brs : Bool) → FdDigits (fd_part fd esi brs) fd esi brs
fd_part-FdDigits true true true = (refl, refl, refl, refl, refl, refl)
fd_part-FdDigits true true false = (refl, refl, refl, refl, refl, refl)
fd_part-FdDigits true false true = (refl, refl, refl, refl, refl, refl)
fd_part-FdDigits true false false = (refl, refl, refl, refl, refl, refl)
fd_part-FdDigits false true true = (refl, refl, refl, refl, refl, refl)
fd_part-FdDigits false true false = (refl, refl, refl, refl, refl, refl)
fd_part-FdDigits false false true = (refl, refl, refl, refl, refl, refl)
fd_part-FdDigits false false false = (refl, refl, refl, refl, refl, refl)

on_small : (b : Bool) → (on b (2 ^ 4) ≡ 16 * on b 1) × (on b (2 ^ 5) ≡ 32 * on b 1) × (on b 1 ≤ 1)
on_small true = (refl, refl, omega arith)
on_small false = (refl, refl, omega arith)

-- The flags that the receiver looks at are those that the sender set.
abbrev pub Flags : (w dlc : ℕ) (ide rtr fd esi brs : Bool) → Type 0
Flags w dlc ide rtr fd esi brs =
    (any_bit w Regs.obj_flags_ide ≡ ide)
    × (any_bit w Regs.obj_flags_rtr ≡ rtr)
    × (any_bit w Regs.obj_flags_brs ≡ fd && brs)
    × (any_bit w Regs.obj_flags_fdf ≡ fd)
    × (any_bit w Regs.obj_flags_esi ≡ fd && esi)
    × (w % 16 ≡ dlc)

pub word-Flags :
    (q dlc : ℕ) (ide rtr fd esi brs : Bool)
    → dlc < 16
    → Flags
        (word (on ide (2 ^ 4)) (q * 2 ^ 9) dlc (on rtr (2 ^ 5)) (fd_part fd esi brs))
        dlc
        ide
        rtr
        fd
        esi
        brs
word-Flags q dlc ide rtr fd esi brs small =
    let a = on ide (2 ^ 4) in
    let b = q * 2 ^ 9 in
    let d = on rtr (2 ^ 5) in
    let e = fd_part fd esi brs in
    let w = word a b dlc d e in
    let x = fd_part-FdDigits fd esi brs in
    let i = on_small ide in
    let r = on_small rtr in
    let at4 : w / 2 ^ 4 % 2 ≡ on ide 1 =
      omega (arith, word_digit 4 a b dlc d e, x.0, i.0, i.2, r.1) in
    let at5 : w / 2 ^ 5 % 2 ≡ on rtr 1 =
      omega (arith, word_digit 5 a b dlc d e, x.1, i.0, i.2, r.1, r.2) in
    let at6 : w / 2 ^ 6 % 2 ≡ on (fd && brs) 1 =
      omega (arith, word_digit 6 a b dlc d e, x.2, i.0, i.2, r.1, r.2) in
    let at7 : w / 2 ^ 7 % 2 ≡ on fd 1 =
      omega (arith, word_digit 7 a b dlc d e, x.3, i.0, i.2, r.1, r.2) in
    let at8 : w / 2 ^ 8 % 2 ≡ on (fd && esi) 1 =
      omega (arith, word_digit 8 a b dlc d e, x.4, i.0, i.2, r.1, r.2) in
    let low : w % 16 ≡ dlc =
      word_low a b dlc d e (omega (arith, i.0)) (omega arith) (omega (arith, r.1)) x.5
      ∙ omega arith in
    (
      flag 4 w ide at4,
      flag 5 w rtr at5,
      flag 6 w (fd && brs) at6,
      flag 7 w fd at7,
      flag 8 w (fd && esi) at8,
      low,
    )
