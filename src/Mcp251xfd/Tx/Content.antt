-- ===== src/Mcp251xfd/Tx/Content.antt =====
-- The bytes of a TX object as load_frame writes them into the object's buffer.
use yocto_layers.Common.{
  ℕ, ◌+◌, ◌-◌, ◌==◌, refl, subst, ◌≤◌, ◌≡◌, ap, ◌∙◌, true, List, [], ◌∷◌, ◌++◌, length, take, drop,
  length-take, length-drop, take-append, length-append, replicate, suc, zero, if◌then◌else◌, Bool,
  false, arith,
}
use yocto_layers.Mcp251xfd.State.{CanFrame}
use yocto_layers.Mcp251xfd.Spi.{le32, cmd_crc_set_len_in_ram}
use yocto_layers.Mcp251xfd.Tef.{round_down}
use yocto_layers.Mcp251xfd.Tx.{write_at, round_up4, load_payload}

-- A write that starts within the first `n` bytes of a buffer leaves it `n` bytes.
pub length-write_at :
    (n : ℕ) (buf : List ℕ) (off : ℕ) (bytes : List ℕ)
    → n ≤ length buf
    → off ≤ n
    → n ≤ length (write_at buf off bytes)
unfolding write_at
length-write_at n buf off bytes h le = omega (
  arith,
  h,
  le,
  length-append (take off buf ++ bytes) (drop (off + length bytes) buf),
  length-append (take off buf) bytes,
  length-take off buf (omega (arith, h, le)),
  length-drop (off + length bytes) buf,
)

-- The bytes up to the end of the write.
pub take-write_at :
    (n : ℕ) (buf : List ℕ) (off : ℕ) (bytes : List ℕ)
    → off ≤ length buf
    → off + length bytes ≡ n
    → take n (write_at buf off bytes) ≡ take off buf ++ bytes
unfolding write_at
take-write_at n buf off bytes h e =
    take-append n (take off buf ++ bytes) (drop (off + length bytes) buf)
      (omega (arith, e, length-append (take off buf) bytes, length-take off buf h))

length-cleared :
    (b : Bool) (n : ℕ) (buf : List ℕ) (off : ℕ) (bytes : List ℕ)
    → n ≤ length buf
    → off ≤ n
    → n ≤ length (if b then buf else write_at buf off bytes)
length-cleared true n buf off bytes h le = h
length-cleared false n buf off bytes h le = length-write_at n buf off bytes h le

pub length-load_payload :
    (n : ℕ) (buf : List ℕ) (hdr : ℕ) (cfd : CanFrame) (size : ℕ)
    → n ≤ length buf
    → hdr + 8 + cfd.len ≤ n
    → n ≤ length (load_payload buf hdr cfd size)
unfolding load_payload round_down
length-load_payload n buf hdr cfd size h le =
    length-write_at n _ (hdr + 8) _
      (length-cleared _ n buf (hdr + 8 + round_down cfd.len 4) _ h (omega (arith, le)))
      (omega (arith, le))

-- The bytes of a message past a part of it.
take-append_more :
    (n m : ℕ) (xs ys : List ℕ) → n ≡ length xs + m → take n (xs ++ ys) ≡ xs ++ take m ys
take-append_more n m [] ys e = ap (λ k. take k ys) (omega (arith, e))
take-append_more zero m (x ∷ xs) ys e = absurd (omega (arith, e))
take-append_more (suc n) m (x ∷ xs) ys e =
    ap (λ (t : List ℕ). x ∷ t) (take-append_more n m xs ys (omega (arith, e)))

take-replicate : (n : ℕ) (ys : List ℕ) → take n (replicate n 0 ++ ys) ≡ replicate n 0
take-replicate zero ys = refl
take-replicate (suc n) ys = ap (λ (t : List ℕ). 0 ∷ t) (take-replicate n ys)

-- What is left of `l` zeros behind `k` bytes after the first `n` bytes.
left_zero :
    (n m k l : ℕ) (rest ys : List ℕ)
    → k ≤ n
    → n + m ≡ k + l
    → k ≤ length rest
    → take m (drop n ((take k rest ++ replicate l 0) ++ ys)) ≡ replicate m 0
left_zero zero m zero l rest ys a e r =
    ap (λ j. take m (replicate j 0 ++ ys)) (omega (arith, e)) ∙ take-replicate m ys
left_zero (suc n) m zero zero rest ys a e r = absurd (omega (arith, e))
left_zero (suc n) m zero (suc l) rest ys a e r =
    left_zero n m zero l rest ys (omega arith) (omega (arith, e)) (omega arith)
left_zero zero m (suc k) l rest ys a e r = absurd (omega (arith, a))
left_zero (suc n) m (suc k) l [] ys a e r = absurd (omega (arith, r))
left_zero (suc n) m (suc k) l (x ∷ rest) ys a e r =
    left_zero n m k l rest ys (omega (arith, a)) (omega (arith, e)) (omega (arith, r))

-- The payload as it is sent, with zeros up to a whole number of words.
abbrev pub padded : CanFrame → ℕ → List ℕ
padded cfd size = take cfd.len cfd.payload ++ replicate (round_up4 size - cfd.len) 0

-- A write behind a part of a buffer.
write_at-append :
    (off k : ℕ) (xs ys bytes : List ℕ)
    → off ≡ length xs + k
    → write_at (xs ++ ys) off bytes ≡ xs ++ write_at ys k bytes
unfolding write_at
write_at-append off k [] ys bytes e = ap (λ n. write_at ys n bytes) (omega (arith, e))
write_at-append zero k (x ∷ xs) ys bytes e = absurd (omega (arith, e))
write_at-append (suc off) k (x ∷ xs) ys bytes e =
    let same : suc off + length bytes ≡ suc (off + length bytes) = omega arith in
    ap (λ n. x ∷ (take off (xs ++ ys) ++ bytes ++ drop n (x ∷ xs ++ ys))) same
    ∙ ap (λ (t : List ℕ). x ∷ t) (write_at-append off k xs ys bytes (omega (arith, e)))

-- What a buffer `rest` for the payload holds once it is loaded.
sent_payload :
    (b : Bool) (cfd : CanFrame) (size offset : ℕ) (rest : List ℕ)
    → (b ≡ true → round_up4 size ≤ offset)
    → offset ≤ cfd.len
    → cfd.len ≤ round_up4 size
    → length (take cfd.len cfd.payload) ≡ cfd.len
    → round_up4 size ≤ length rest
    → take (round_up4 size) (
        write_at
          (if b then rest else write_at rest offset (replicate (round_up4 size - offset) 0))
          0
          (take cfd.len cfd.payload))
      ≡ padded cfd size
unfolding write_at
sent_payload true cfd size offset rest e low le l room =
    let m = round_up4 size - cfd.len in
    let none_left : 0 ≡ m = omega (arith, e refl, low) in
    take-append_more (round_up4 size) m (take cfd.len cfd.payload) _ (omega (arith, le, l))
    ∙ ap (λ (t : List ℕ). take cfd.len cfd.payload ++ t)
        (subst (λ j. take j (drop (0 + length (take cfd.len cfd.payload)) rest) ≡ replicate j 0)
          none_left refl)
sent_payload false cfd size offset rest e low le l room =
    let m = round_up4 size - cfd.len in
    take-append_more (round_up4 size) m (take cfd.len cfd.payload) _ (omega (arith, le, l))
    ∙ ap (λ (t : List ℕ). take cfd.len cfd.payload ++ t)
        (left_zero (0 + length (take cfd.len cfd.payload)) m offset (round_up4 size - offset) rest _
          (omega (arith, low, l)) (omega (arith, le, low, l)) (omega (arith, low, le, room)))

-- The bytes from the command's length byte on, which the checksum covers with the command.
abbrev pub content : ℕ → ℕ → CanFrame → ℕ → List ℕ
content id flags cfd size =
    cmd_crc_set_len_in_ram (8 + round_up4 size) ∷ le32 id ++ le32 flags ++ padded cfd size

cleared-append :
    (b : Bool) (off k : ℕ) (xs ys bytes : List ℕ)
    → off ≡ length xs + k
    → (if b then xs ++ ys else write_at (xs ++ ys) off bytes)
      ≡ xs ++ (if b then ys else write_at ys k bytes)
cleared-append true off k xs ys bytes e = refl
cleared-append false off k xs ys bytes e = write_at-append off k xs ys bytes e

load_payload-append :
    (xs rest : List ℕ) (cfd : CanFrame) (size : ℕ)
    → length xs ≡ 11
    → cfd.len ≤ round_up4 size
    → length (take cfd.len cfd.payload) ≡ cfd.len
    → round_up4 size ≤ length rest
    → (P : List ℕ) × (load_payload (xs ++ rest) 3 cfd size ≡ xs ++ P)
      × (take (round_up4 size) P ≡ padded cfd size)
unfolding load_payload round_down
load_payload-append xs rest cfd size e le l room =
    let offset = round_down cfd.len 4 in
    let b = round_up4 size - offset == 0 in
    let zeros : List ℕ = replicate (round_up4 size - offset) 0 in
    let pl = take cfd.len cfd.payload in
    let cleared : List ℕ = if b then rest else write_at rest offset zeros in
    (
      write_at cleared 0 pl,
      ap (λ t. write_at t 11 pl)
            (cleared-append b (11 + offset) offset xs rest zeros (omega (arith, e)))
          ∙ write_at-append 11 0 xs cleared pl (omega (arith, e)),
      sent_payload b cfd size offset rest (λ q. ground arith) (omega arith) le l room,
    )

-- The object with its command, before the checksum is appended.
pub counted_bytes :
    (buf : List ℕ) (id flags : ℕ) (cfd : CanFrame) (size : ℕ)
    → cfd.len ≤ round_up4 size
    → length (take cfd.len cfd.payload) ≡ cfd.len
    → 13 + round_up4 size ≤ length buf
    → take (8 + round_up4 size + 3) (
        write_at
          (load_payload (write_at (write_at buf 3 (le32 id)) 7 (le32 flags)) 3 cfd size)
          2
          (cmd_crc_set_len_in_ram (8 + round_up4 size) ∷ []))
      ≡ take 2 buf ++ content id flags cfd size
unfolding write_at
counted_bytes [] id flags cfd size le l room = absurd (omega (arith, room))
counted_bytes (a ∷ []) id flags cfd size le l room = absurd (omega (arith, room))
counted_bytes (a ∷ b ∷ []) id flags cfd size le l room = absurd (omega (arith, room))
counted_bytes (a ∷ b ∷ c ∷ d) id flags cfd size le l room =
    let rest = drop 4 (drop 4 d) in
    let words = le32 id ++ le32 flags in
    let len = cmd_crc_set_len_in_ram (8 + round_up4 size) in
    let n = 8 + round_up4 size + 3 in
    let enough : round_up4 size ≤ length rest =
      omega (arith, room, length-drop 4 (drop 4 d), length-drop 4 d) in
    let loaded = load_payload-append (a ∷ b ∷ c ∷ words) rest cfd size refl le l enough in
    ap (λ t. take n (write_at t 2 (len ∷ []))) loaded.1
    ∙ take-append_more n (round_up4 size) (a ∷ b ∷ len ∷ words) loaded.0 (omega arith)
    ∙ ap (λ (t : List ℕ). a ∷ b ∷ len ∷ words ++ t) loaded.2
