-- ===== src/Mcp251xfd/Rx/RoundTrip.antt =====
-- A frame that one controller transmits, as the receiving driver hands it to the stack.
use yocto_layers.Common.{
  ℕ, zero, suc, List, ◌*◌, ◌%◌, ◌^◌, ◌/◌, ◌+◌, ◌<◌, min, bit_or, ◌≡◌, refl, ap₂, ◌∙◌, Bool, true,
  false, ◌&&◌, ◌==◌, if◌then◌else◌, take, arith,
}
use yocto_layers.Mcp251xfd.CanAbi
use yocto_layers.Mcp251xfd.Regs
use yocto_layers.Mcp251xfd.Regs.{any_bit, field_get, field_prep}
use yocto_layers.Mcp251xfd.State.{CanFrame}
use yocto_layers.Mcp251xfd.Rx.{hw_rx_obj_to_skb, rx_fd_flags}
use yocto_layers.Mcp251xfd.Tx.{tx_id, tx_flags, tx_fd_flags}
use yocto_layers.Mcp251xfd.Rx.Frame.{any_bit_lem, rx_can_id-tx_id, word-Flags, wire_id, Flags, on}

-- What arrives of a frame beside its payload: the identifier without the error flag, RTR of a classical frame, and ESI
-- and BRS of a CAN FD frame.
unfoldable pub received : (ℕ → ℕ) → CanFrame → List ℕ → Bool → ℕ → CanFrame
unfolding wire_id
received dlc2len cfd payload fd dlc =
    let id = wire_id cfd.can_id in
    let len = if fd then dlc2len dlc else min dlc 8 in
    let rtr = if any_bit cfd.can_id CanAbi.rtr_flag then bit_or id CanAbi.rtr_flag else id in
    record {
      can_id = if fd then id else rtr;
      len = len;
      flags = if fd then cfd.flags % 4 else 0;
      payload = take len payload;
    }

tx_flags-Flags :
    (cfd : CanFrame) (fd : Bool) (dlc seq : ℕ)
    → dlc < 16
    → Flags
        (tx_flags cfd fd dlc seq)
        dlc
        (any_bit cfd.can_id CanAbi.eff_flag)
        (any_bit cfd.can_id CanAbi.rtr_flag)
        fd
        (any_bit cfd.flags CanAbi.canfd_esi)
        (any_bit cfd.flags CanAbi.canfd_brs)
unfolding tx_flags tx_fd_flags
tx_flags-Flags cfd fd dlc seq small =
    let same : field_prep Regs.obj_flags_dlc dlc ≡ dlc = omega arith in
    let f =
      word-Flags (seq % 2 ^ 23) (field_prep Regs.obj_flags_dlc dlc)
        (any_bit cfd.can_id CanAbi.eff_flag) (any_bit cfd.can_id CanAbi.rtr_flag) fd
        (any_bit cfd.flags CanAbi.canfd_esi) (any_bit cfd.flags CanAbi.canfd_brs) (omega arith) in
    (f.0, f.1, f.2, f.3, f.4, f.5 ∙ same)

two_bits : (a b : ℕ) → a < 2 → b < 2 → bit_or (on (a == 1) 2) (on (b == 1) 1) ≡ 2 * a + b
two_bits zero zero p q = refl
two_bits zero (suc zero) p q = refl
two_bits (suc zero) zero p q = refl
two_bits (suc zero) (suc zero) p q = refl
two_bits (suc (suc a)) b p q = absurd (omega arith)
two_bits zero (suc (suc b)) p q = absurd (omega arith)
two_bits (suc zero) (suc (suc b)) p q = absurd (omega arith)

fd_bits :
    (x : ℕ) → bit_or (on (any_bit x CanAbi.canfd_esi) 2) (on (any_bit x CanAbi.canfd_brs) 1) ≡ x % 4
fd_bits x =
    ap₂ (λ (a b : Bool). bit_or (on a 2) (on b 1)) (any_bit_lem 1 x) (any_bit_lem 0 x)
    ∙ two_bits (x / 2 ^ 1 % 2) (x / 2 ^ 0 % 2) (omega arith) (omega arith)
    ∙ omega arith

fd_flags :
    (fd esi brs : Bool) (x : ℕ)
    → bit_or (on esi 2) (on brs 1) ≡ x
    → (if fd then bit_or (on (fd && esi) 2) (on (fd && brs) 1) else 0) ≡ (if fd then x else 0)
fd_flags true esi brs x h = h
fd_flags false esi brs x h = refl

-- The frame of an identifier, a length code, FDF, RTR and the flags of CAN FD.
abbrev frame_of : (ℕ → ℕ) → List ℕ → (id dlc : ℕ) (fd rtr : Bool) (flags : ℕ) → CanFrame
frame_of dlc2len payload id dlc fd rtr flags =
    let len = if fd then dlc2len dlc else min dlc 8 in
    record {
      can_id = if fd then id else if rtr then bit_or id CanAbi.rtr_flag else id;
      len = len;
      flags = flags;
      payload = take len payload;
    }

frame_cong :
    (dlc2len : ℕ → ℕ) (payload : List ℕ) {id id' dlc dlc' flags flags' : ℕ} {fd fd' rtr rtr' : Bool}
    → id ≡ id'
    → dlc ≡ dlc'
    → fd ≡ fd'
    → rtr ≡ rtr'
    → flags ≡ flags'
    → frame_of dlc2len payload id dlc fd rtr flags
      ≡ frame_of dlc2len payload id' dlc' fd' rtr' flags'
frame_cong dlc2len payload a b c d e = rw (a, b, c, d, e) refl

-- The identifier and flags words that the transmit routine writes for a frame, with a length code below
-- 16, become on the receiving side the identifier, the flags and the length of the frame again, as far
-- as they are transmitted; of the payload that comes with them as many bytes are kept as this length.
pub hw_rx_obj_to_skb-received :
    (dlc2len : ℕ → ℕ) (cfd : CanFrame) (payload : List ℕ) (fd : Bool) (dlc seq ts : ℕ)
    → dlc < 16
    → hw_rx_obj_to_skb dlc2len (record {
      id = tx_id cfd.can_id;
      flags = tx_flags cfd fd dlc seq;
      ts = ts;
      payload = payload;
    })
      ≡ received dlc2len cfd payload fd dlc
unfolding hw_rx_obj_to_skb received rx_fd_flags
hw_rx_obj_to_skb-received dlc2len cfd payload fd dlc seq ts small =
    let f = tx_flags-Flags cfd fd dlc seq small in
    let w = tx_flags cfd fd dlc seq in
    let code : field_get Regs.obj_flags_dlc w ≡ dlc = omega (arith, f.5) in
    let esi = any_bit cfd.flags CanAbi.canfd_esi in
    let brs = any_bit cfd.flags CanAbi.canfd_brs in
    let bits : (if any_bit w Regs.obj_flags_fdf
          then bit_or (on (any_bit w Regs.obj_flags_esi) 2) (on (any_bit w Regs.obj_flags_brs) 1)
          else 0)
        ≡ (if fd then cfd.flags % 4 else 0) =
      rw (f.3, f.4, f.2) (fd_flags fd esi brs (cfd.flags % 4) (fd_bits cfd.flags)) in
    frame_cong dlc2len payload (rx_can_id-tx_id cfd.can_id w ts payload f.0) code f.3 f.1 bits
