-- ===== src/Mcp251xfd/Regmap/Update.antt =====
-- What mcp251xfd_regmap_nocrc_update_bits writes, bit by bit.
use yocto_layers.Common.{
  ℕ, zero, suc, ◌+◌, ◌-◌, ◌*◌, ◌/◌, ◌%◌, ◌^◌, ◌≤◌, ◌<◌, min, max, bit_and, bit_or, ◌≡◌, ap, ap₂,
  ◌∙◌, ◌≢◌, List, ◌∷◌, ◌++◌, drop, refl, sym, subst, Option, none, some, Bool, true, false, ◌&&◌,
  length, take, length-take, ◌==◌, if◌then◌else◌, u32, arith,
}
use native.Mathlib.Nat.{div-le_self}
use yocto_layers.Common.Digits.{bit_at, and_bit, or_bit, not_bit, mod_bit, shift_bit}
use yocto_layers.Mcp251xfd.Spi.{first_byte_set, last_byte_set, byte_count, le32}
use yocto_layers.Mcp251xfd.Spi.Image.{count_small, byte_count_window}
use yocto_layers.Mcp251xfd.Monad.{Env, Drv, M, call_, return, pure, ◌>>◌, ◌>>=◌}
use yocto_layers.Mcp251xfd.State.{Errno, spi_write}
use yocto_layers.Mcp251xfd.Spi.{cmd_write_nocrc, cmd_read_nocrc}
use yocto_layers.Mcp251xfd.Post.{Ends, returns, fails, called-Ends, bind-Ends, choose-Ends}
use yocto_layers.Mcp251xfd.Reset.Retry.{AnyError}
use yocto_layers.Mcp251xfd.Regmap.{
  from_le, not32, merged, update_bits_read_reg, spi_exchange, regmap_nocrc_update_bits,
}

from_le-take : (n w : ℕ) → n ≤ 4 → from_le (take n (le32 w)) ≡ w % 2 ^ (8 * n)
from_le-take zero w h = omega arith
from_le-take (suc zero) w h = omega arith
from_le-take (suc (suc zero)) w h = omega arith
from_le-take (suc (suc (suc zero))) w h = omega arith
from_le-take (suc (suc (suc (suc zero)))) w h = omega arith
from_le-take (suc (suc (suc (suc (suc n))))) w h = absurd (omega arith)

-- A bit of the shifted word.
shifted_bit : (i s x : ℕ) → x < 2 ^ 32 → bit_at i (u32 x / 2 ^ s) ≡ bit_at (i + s) x
shifted_bit i s x small =
    let whole : u32 x ≡ x = omega (arith, small) in
    ap (λ (t : ℕ). bit_at i (t / 2 ^ s)) whole ∙ shift_bit i s x

choice :
    (m v o : ℕ) → m < 2 → v < 2 → o < 2 → max (min o (1 - m)) (min v m) ≡ (if m == 1 then v else o)
choice m v o hm hv ho = ground arith

-- For a mask of 32 bits that is not empty, an update writes as many bytes as the mask spans, and of
-- these each bit that is in the mask is the new value's, and each bit that is not is the register's old
-- one.
merged_lem :
    (orig mask val i : ℕ)
    → mask ≢ 0
    → mask < 2 ^ 32
    → val < 2 ^ 32
    → i < 8 * byte_count mask
    → (length (merged orig mask val) ≡ byte_count mask)
      × (bit_at i (from_le (merged orig mask val)) ≡ (
          if bit_at (i + 8 * first_byte_set mask) mask == 1
          then bit_at (i + 8 * first_byte_set mask) val
          else bit_at i orig))
unfolding merged
merged_lem orig mask val i nonzero small fits h =
    let s = 8 * first_byte_set mask in
    let n = byte_count mask in
    let few : n ≤ 4 = count_small mask nonzero small in
    let m = u32 mask / 2 ^ s in
    let below : m < 2 ^ 32 = omega (arith, div-le_self (u32 mask) (2 ^ s)) in
    let v = u32 val / 2 ^ s in
    let word = bit_or (bit_and orig (not32 m)) (bit_and v m) in
    (
      length-take n (le32 word) few,
      ap (bit_at i) (from_le-take n word few)
          ∙ mod_bit i (8 * n) word h
          ∙ or_bit i (bit_and orig (not32 m)) (bit_and v m)
          ∙ ap₂ max
              (and_bit i orig (not32 m)
                ∙ ap (min (bit_at i orig)) (not_bit i 32 m (omega (arith, few, h)) below))
              (and_bit i v m)
          ∙ choice (bit_at i m) (bit_at i v) (bit_at i orig) (omega arith) (omega arith)
              (omega arith)
          ∙ ap₂ (λ (a b : ℕ). if a == 1 then b else bit_at i orig) (shifted_bit i s mask small)
              (shifted_bit i s val fits),
    )

-- The bytes that stood in the register, as far as the driver knows them: of six registers it reads none and
-- takes zeros.
abbrev pub known : ⦃env : Env⦄ → ℕ → ℕ → Drv → ℕ
known ⦃env⦄ reg n t =
    if update_bits_read_reg reg then from_le (take n (env.answer (drop 1 t.calls)).bytes) else 0

-- The `n` bytes from byte `first` on are those that the mask reaches: it has bits in the first of them and
-- in the last, and none before or after.
abbrev pub Spans : (mask first n : ℕ) → Type 0
Spans mask first n =
    (mask % 2 ^ (8 * first) ≡ 0)
    × (mask / 2 ^ (8 * first) % 2 ^ 8 ≢ 0)
    × (mask / 2 ^ (8 * (first + n - 1)) ≢ 0)
    × (mask < 2 ^ (8 * (first + n)))

-- An update has written, to the first byte of the register that the mask reaches, `byte_count` bytes in
-- which the bit `i` is the new value's where the mask has it, and else the one that is known.
abbrev pub Updated : ⦃env : Env⦄ → (reg mask val i : ℕ) → Drv → Type 0
Updated reg mask val i t =
    (bytes : List ℕ) × (t.calls
      ≡ spi_write (cmd_write_nocrc (reg + first_byte_set mask) ++ bytes) ∷ drop 1 t.calls)
    × Spans mask (first_byte_set mask) (byte_count mask)
    × (length bytes ≡ byte_count mask)
    × (bit_at i (from_le bytes) ≡ (
        if bit_at (i + 8 * first_byte_set mask) mask == 1
        then bit_at (i + 8 * first_byte_set mask) val
        else bit_at i (known reg (byte_count mask) t)))

-- The value that the update starts from, with or without a read.
abbrev original : ⦃env : Env⦄ → (reg mask : ℕ) → Bool → M ℕ
original reg mask b =
    if b
    then (do
      r ← spi_exchange (cmd_read_nocrc (reg + first_byte_set mask)) (byte_count mask)
      return r.err
      pure (from_le (take (byte_count mask) r.bytes)))
    else pure 0

module _ (reg mask val i : ℕ) ⦃env : Env⦄ (nonzero : mask ≢ 0) (small : mask < 2 ^ 32)
    (fits : val < 2 ^ 32) (h : i < 8 * byte_count mask) where
  spans : Spans mask (first_byte_set mask) (byte_count mask)
  spans =
      let w = byte_count_window mask nonzero small in
      let last : first_byte_set mask + byte_count mask - 1 ≡ last_byte_set mask =
        omega (arith, w.0) in
      let past : last_byte_set mask + 1 ≡ first_byte_set mask + byte_count mask =
        omega (arith, w.0) in
      (
        w.2,
        w.4,
        subst (λ k. mask / 2 ^ (8 * k) ≢ 0) (sym last) w.5,
        subst (λ k. mask < 2 ^ (8 * k)) past w.3,
      )

  written :
      (orig : ℕ) (s : Drv)
      → (known reg (byte_count mask) (record s {
        calls =
            spi_write (cmd_write_nocrc (reg + first_byte_set mask) ++ merged orig mask val)
            ∷ s.calls;
      })
          ≡ orig)
      → Ends
          (λ _ t. Updated reg mask val i t)
          AnyError
          (call_
            (spi_write (cmd_write_nocrc (reg + first_byte_set mask) ++ merged orig mask val))
            s)
  written orig s e =
      let m = merged_lem orig mask val i nonzero small fits h in
      called-Ends _ _ s
        (λ _. returns (
          merged orig mask val,
          refl,
          spans,
          m.0,
          m.1
              ∙ ap
                  (λ (t : ℕ).
                    if bit_at (i + 8 * first_byte_set mask) mask == 1
                    then bit_at (i + 8 * first_byte_set mask) val
                    else bit_at i t)
                  (sym e),
        ))
        (λ _ _. tt)

  abbrev Known : ℕ → Drv → Type 0
  Known orig t = orig ≡ (
      if update_bits_read_reg reg
      then from_le (take (byte_count mask) (env.answer t.calls).bytes)
      else 0)

  exchanged :
      (e : Option Errno) (t : Drv)
      → update_bits_read_reg reg ≡ true
      → Ends Known AnyError
          ((return e >> pure (from_le (take (byte_count mask) (env.answer t.calls).bytes))) t)
  exchanged none t y = returns (rw y refl)
  exchanged (some e) t y = fails tt

  original-Known :
      (b : Bool) (s : Drv)
      → update_bits_read_reg reg ≡ b
      → Ends Known AnyError (original reg mask b s)
  unfolding spi_exchange
  original-Known true s y = exchanged _ _ y
  original-Known false s y = returns (rw y refl)

pub update_bits-Updated :
    (reg mask val i : ℕ) ⦃env : Env⦄ (s : Drv)
    → mask ≢ 0
    → mask < 2 ^ 32
    → val < 2 ^ 32
    → i < 8 * byte_count mask
    → Ends (λ _ t. Updated reg mask val i t) AnyError (regmap_nocrc_update_bits reg mask val s)
unfolding regmap_nocrc_update_bits
update_bits-Updated reg mask val i ⦃env⦄ s nonzero small fits h =
    choose-Ends (env.sanity && mask == 0) _ _ s (λ _. fails tt)
      (λ _.
        bind-Ends (original reg mask (update_bits_read_reg reg)) _ s
          (original-Known reg mask val i nonzero small fits h (update_bits_read_reg reg) s refl)
          (λ orig t e. written reg mask val i nonzero small fits h orig t (sym e)))
