-- ===== src/Fonts/Painting.antt =====
-- Where testhb.c writes when it draws a glyph.
use yocto_layers.Common.{
  ℕ, zero, suc, ◌+◌, ◌-◌, ◌*◌, ◌/◌, ◌^◌, ◌≤◌, ◌<◌, ◌≡◌, refl, ap, ap₂, ◌∙◌, false, ltb, ◌==◌, some,
  List, [], ◌∷◌, ◌++◌, u8, u16, u32, sub32, if◌then◌else◌, arith,
}
use native.Mathlib.Nat.{mul-le-mul_right, mul-le-mul_left}
use yocto_layers.Common.Fields.{or_fields}
use yocto_layers.Fonts.{
  Screen, Write, Slot, FreeType, fb_pix, fb_glyph_get, gray, draw_columns, draw_rows, draw_g,
}

-- A screen of 32 bits for a pixel, whose memory holds its pixels and nothing else.
pub record IsPlain (screen : Screen) : Type 0 where
  pub bits : screen.bits_per_pixel ≡ 32
  pub size : screen.smem_len ≡ screen.yres * screen.xres * 4
  pub small : screen.smem_len < 2 ^ 31

-- The glyph lies on the screen, below the limits of the arguments of FB_pix.
pub record OnScreen (screen : Screen) (slot : Slot) (x y : ℕ) : Type 0 where
  pub top : slot.bitmap_top ≤ y
  pub right : x + slot.width ≤ screen.xres
  pub bottom : y - slot.bitmap_top + slot.rows ≤ screen.yres
  pub x_small : screen.xres ≤ 2 ^ 16
  pub y_small : screen.yres ≤ 2 ^ 16
  pub y_word : y < 2 ^ 31

-- Every element is in `P`.
pub data All {A : Type 0} (P : A → Type 0) : List A → Type 0 where
  empty : All P []
  more : {a : A} {xs : List A} → P a → All P xs → All P (a ∷ xs)

abbrev pub InMemory : Screen → Write → Type 0
InMemory screen w = w.offset + 4 ≤ screen.smem_len

-- The pixel at a place of the screen, in white that shows as much as its gray value.
abbrev pub pixel : Screen → ℕ → ℕ → ℕ → Write
pixel screen px py v = record {
  offset = (py * screen.xres + px) * 4;
  value = u8 v * 2 ^ 24 + 0xff_ffff;
}

module _ (screen : Screen) (plain : IsPlain screen) where
  below :
      (px py : ℕ)
      → px < screen.xres
      → py < screen.yres
      → (py * screen.xres + px) * 4 + 4 ≤ screen.smem_len
  below px py h l =
      let rows : (py + 1) * screen.xres ≤ screen.yres * screen.xres =
        mul-le-mul_right screen.xres (omega arith) in
      omega (arith, rows, plain.size, h)

  fb_pix-pixel :
      (px py v : ℕ)
      → px < screen.xres
      → py < screen.yres
      → fb_pix screen px py (u8 v) ≡ pixel screen px py v ∷ []
  unfolding fb_pix
  fb_pix-pixel px py v h l =
      let inside = below px py h l in
      let depth : screen.bits_per_pixel / 2 ^ 3 ≡ 4 = omega (arith, plain.bits) in
      let place : u32 (u32 (py * screen.xres + px) * (screen.bits_per_pixel / 2 ^ 3))
          ≡ (py * screen.xres + px) * 4 =
        ap (λ (t : ℕ). u32 (u32 (py * screen.xres + px) * t)) depth
        ∙ omega (arith, inside, plain.small) in
      let within : ltb screen.smem_len ((py * screen.xres + px) * 4) ≡ false =
        ground (arith, inside) in
      let white = or_fields 24 (u8 v) 0xff_ffff (omega arith) in rw (place, within, white) refl

-- The glyph's pixels that are not blank, row by row, each at its place.
module _ (screen : Screen) (slot : Slot) (x y : ℕ) where
  abbrev pub shown : ℕ → ℕ → List Write
  shown gx gy =
      let v = slot.buffer (gy * slot.width + gx) in
      if v == 0 then [] else pixel screen (x + gx) (y - slot.bitmap_top + gy) v ∷ []

  abbrev pub row : ℕ → ℕ → ℕ → List Write
  row gy zero gx = []
  row gy (suc left) gx = shown gx gy ++ row gy left (gx + 1)

  abbrev pub picture : ℕ → ℕ → List Write
  picture zero gy = []
  picture (suc left) gy = row gy slot.width 0 ++ picture left (gy + 1)

All-append : {A : Type 0} {P : A → Type 0} {xs ys : List A} → All P xs → All P ys → All P (xs ++ ys)
All-append empty q = q
All-append (more p ps) q = more p (All-append ps q)

module _ (screen : Screen) (plain : IsPlain screen) (slot : Slot) (x y : ℕ)
    (there : OnScreen screen slot x y) where
  unfoldable Shows : List Write → List Write → Type 0
  Shows ws ps = (ws ≡ ps) × All (InMemory screen) ps

  one :
      (v v' px py px' py' : ℕ)
      → v' ≡ v
      → px' ≡ px
      → py' ≡ py
      → px < screen.xres
      → py < screen.yres
      → Shows
          (if ltb v' 1 then [] else fb_pix screen px' py' (u8 v'))
          (if v == 0 then [] else pixel screen px py v ∷ [])
  unfolding Shows
  one zero v' px py px' py' r p q h l = rw r (refl, empty)
  one (suc v) v' px py px' py' r p q h l =
      let e : ltb (suc v) 1 ≡ false = ground arith in
      let f : (suc v == 0) ≡ false = ground arith in
      rw (r, e, f, p, q)
        (fb_pix-pixel screen plain px py (suc v) h l, more (below screen plain px py h l) empty)

  gray-buffer :
      (gx gy : ℕ)
      → gx < slot.width
      → gy < slot.rows
      → gray screen slot x y gx gy ≡ slot.buffer (gy * slot.width + gx)
  gray-buffer gx gy h l =
      let wide : slot.width ≤ 2 ^ 16 = omega (arith, there.right, there.x_small) in
      let full : gy * slot.width ≤ gy * 2 ^ 16 = mul-le-mul_left gy wide in
      ap slot.buffer (omega (arith, full, h, l, wide, there.bottom, there.y_small))

  both : (ws ps ws' ps' : List Write) → Shows ws ps → Shows ws' ps' → Shows (ws ++ ws') (ps ++ ps')
  unfolding Shows
  both ws ps ws' ps' (e, a) (f, b) = (ap₂ ◌++◌ e f, All-append a b)

  row-Shows :
      (gy left gx : ℕ)
      → gy < slot.rows
      → gx + left ≤ slot.width
      → Shows (draw_columns screen slot x y gy left gx) (row screen slot x y gy left gx)
  unfolding Shows draw_columns
  row-Shows gy zero gx l h = (refl, empty)
  row-Shows gy (suc left) gx l h =
      both _ _ _ _
        (one (slot.buffer (gy * slot.width + gx)) (gray screen slot x y gx gy) (x + gx)
          (y - slot.bitmap_top + gy) (u16 (x + gx)) (u16 (sub32 y slot.bitmap_top + gy))
          (gray-buffer gx gy (omega (arith, h)) l) (omega (arith, h, there.right, there.x_small))
          (omega (arith, l, there.bottom, there.y_small, there.top, there.y_word))
          (omega (arith, h, there.right)) (omega (arith, l, there.bottom)))
        (row-Shows gy left (gx + 1) l (omega (arith, h)))

  rows-Shows :
      (left gy : ℕ)
      → gy + left ≤ slot.rows
      → Shows (draw_rows screen slot x y left gy) (picture screen slot x y left gy)
  unfolding Shows draw_rows
  rows-Shows zero gy h = (refl, empty)
  rows-Shows (suc left) gy h =
      both _ _ _ _ (row-Shows gy slot.width 0 (omega (arith, h)) (omega arith))
        (rows-Shows left (gy + 1) (omega (arith, h)))

-- On a screen of 32 bits for a pixel, whose memory is as large as its pixels and less than 2 GiB, a glyph
-- that FreeType gives, placed wholly on the screen and below the limits of 16 bits, is drawn by one write
-- for each of its pixels that is not blank, row by row, at that pixel's place and with its gray value, and
-- each of the writes lies in the frame buffer with all of its 4 bytes.
pub draw_g_lem :
    (ft : FreeType) (screen : Screen) (gidx x y : ℕ) (slot : Slot)
    → fb_glyph_get ft gidx ≡ some slot
    → IsPlain screen
    → OnScreen screen slot x y
    → (draw_g ft screen gidx x y ≡ some (picture screen slot x y slot.rows 0))
      × All (InMemory screen) (picture screen slot x y slot.rows 0)
unfolding draw_g Shows
draw_g_lem ft screen gidx x y slot e plain there =
    let s = rows-Shows screen plain slot x y there slot.rows 0 (omega arith) in
    rw (e, draw_g) (ap some s.0, s.1)
