-- ===== src/Mcp251xfd/Tx/Message.antt =====
-- The SPI message that loads a TX object with a checksum.
use yocto_layers.Common.{
  ℕ, ◌+◌, ◌≤◌, ◌≡◌, ap, ◌∙◌, true, List, [], ◌∷◌, ◌++◌, length, take, Bool, u8, arith,
}
use yocto_layers.Crc16.{crc16_compute}
use yocto_layers.Mcp251xfd.Monad.{Env}
use yocto_layers.Mcp251xfd.State.{Priv, TxObj, CanFrame}
use yocto_layers.Mcp251xfd.Spi.{be16, le32, cmd_crc_set_len_in_ram}
use yocto_layers.Mcp251xfd.Spi.Image.{residue}
use yocto_layers.Mcp251xfd.Tx.{
  write_at, round_up4, load_payload, load_frame, tx_id, tx_flags, tx_obj_from_skb,
}
use yocto_layers.Mcp251xfd.Tx.Content.{
  length-write_at, take-write_at, length-load_payload, content, counted_bytes,
}

-- A message of `cmd`, the content and their checksum, which leaves no remainder over the message.
abbrev pub IsMessage : List ℕ → ℕ → ℕ → CanFrame → ℕ → TxObj → Type 0
IsMessage cmd id flags cfd size obj =
    (obj.load_len ≡ 13 + round_up4 size)
    × (take obj.load_len obj.buf
        ≡ (cmd ++ content id flags cfd size)
          ++ be16 (crc16_compute (cmd ++ content id flags cfd size)))
    × (crc16_compute (take obj.load_len obj.buf) ≡ 0)

-- With checksums, a frame is loaded by a message that has the checksum of what is before it.
load_frame_lem :
    (buf : List ℕ) (id flags : ℕ) (cfd : CanFrame) (size : ℕ) (obj : TxObj)
    → cfd.len ≤ size
    → length (take cfd.len cfd.payload) ≡ cfd.len
    → 13 + round_up4 size ≤ length buf
    → IsMessage (take 2 buf) id flags cfd size (load_frame buf true id flags cfd size obj)
unfolding load_frame round_up4
load_frame_lem buf id flags cfd size obj le l room =
    let n = 8 + round_up4 size + 3 in
    let words = write_at (write_at buf 3 (le32 id)) 7 (le32 flags) in
    let counted =
      write_at (load_payload words 3 cfd size) 2
        (cmd_crc_set_len_in_ram (8 + round_up4 size) ∷ []) in
    let few : cfd.len ≤ round_up4 size = omega (arith, le) in
    let b0 = length-write_at n buf 3 (le32 id) (omega (arith, room)) (omega arith) in
    let b1 = length-write_at n (write_at buf 3 (le32 id)) 7 (le32 flags) b0 (omega arith) in
    let b2 = length-load_payload n words 3 cfd size b1 (omega (arith, few)) in
    let b3 =
      length-write_at n (load_payload words 3 cfd size) 2
        (cmd_crc_set_len_in_ram (8 + round_up4 size) ∷ []) b2 (omega arith) in
    let crc = crc16_compute (take n counted) in
    let sent = take-write_at (n + 2) counted n (be16 crc) b3 (omega arith) in
    (
      omega arith,
      sent ∙ ap (λ t. t ++ be16 (crc16_compute t)) (counted_bytes buf id flags cfd size few l room),
      ap crc16_compute sent ∙ residue (take n counted),
    )

module _ ⦃env : Env⦄ where
  -- How many bytes the length code of the frame stands for.
  abbrev pub coded_len : CanFrame → ℕ
  coded_len cfd = env.dlc2len (u8 (env.len2dlc cfd.len))

  pub tx_obj_from_skb_lem :
      (p : Priv) (obj : TxObj) (cfd : CanFrame) (fd : Bool) (seq : ℕ)
      → p.devtype_data.quirks.crc_tx ≡ true
      → length (take cfd.len cfd.payload) ≡ cfd.len
      → cfd.len ≤ coded_len cfd
      → 13 + round_up4 (coded_len cfd) ≤ length obj.buf
      → IsMessage
          (take 2 obj.buf)
          (tx_id cfd.can_id)
          (tx_flags cfd fd (u8 (env.len2dlc cfd.len)) seq)
          cfd
          (coded_len cfd)
          (tx_obj_from_skb p obj cfd fd seq)
  unfolding tx_obj_from_skb
  tx_obj_from_skb_lem p obj cfd fd seq crc full le room = rw crc (
      load_frame_lem obj.buf (tx_id cfd.can_id) (tx_flags cfd fd (u8 (env.len2dlc cfd.len)) seq) cfd
        (coded_len cfd) obj le full room)
