-- ===== src/Fonts.antt =====
-- The font demonstration testhb.c of recipes-core/fonts/test-freetype, as it is built with USE_HB 0: how a
-- glyph gets into the frame buffer. Opening files and printing are left out.
pub mod Painting
mod Tests
use yocto_layers.Common.{
  ℕ, zero, suc, ◌+◌, ◌*◌, ◌/◌, ◌^◌, Bool, true, false, not, ◌&&◌, ltb, ◌==◌, Option, none, some,
  List, [], ◌∷◌, ◌++◌, u8, u16, u32, sub32, bit_or, if◌then◌else◌,
}

-- What the ioctls have put into vinfo and fix.
pub record Screen : Type 0 where
  pub xres : ℕ
  pub yres : ℕ
  pub bits_per_pixel : ℕ
  pub smem_len : ℕ

-- A write of 4 bytes to the frame buffer.
pub record Write : Type 0 where
  pub offset : ℕ
  pub value : ℕ

-- The arguments are u_int16_t, u_int16_t and u_int8_t. The arithmetic and the comparison are unsigned, as
-- the fields of vinfo and fix are; an offset is what poff holds as a word.
unfoldable pub fb_pix : Screen → ℕ → ℕ → ℕ → List Write
fb_pix screen x y trans =
    let poff = u32 (u32 (y * screen.xres + x) * (screen.bits_per_pixel / 2 ^ 3)) in
    if ltb screen.smem_len poff
    then []
    else record {
      offset = poff;
      value = bit_or (trans * 2 ^ 24) (bit_or (0xff * 2 ^ 16) (bit_or (0xff * 2 ^ 8) 0xff));
    }
      ∷ []

-- FT_GlyphSlot, with bitmap_top as a word of 32 bits and buffer as the memory from the bitmap's address on.
pub record Slot : Type 0 where
  pub is_bitmap : Bool
  pub is_gray : Bool
  pub rows : ℕ
  pub width : ℕ
  pub bitmap_top : ℕ
  pub buffer : ℕ → ℕ

-- FreeType, for a face: the results of FT_Load_Glyph and FT_Render_Glyph, and the slot after them.
pub record FreeType : Type 0 where
  pub load_glyph : ℕ → ℕ
  pub loaded : ℕ → Slot
  pub render_glyph : ℕ → ℕ
  pub rendered : ℕ → Slot

-- NULL is `none`.
unfoldable pub fb_glyph_get : FreeType → ℕ → Option Slot
fb_glyph_get ft gidx =
    let slot = if (ft.loaded gidx).is_bitmap then ft.loaded gidx else ft.rendered gidx in
    if not (ft.load_glyph gidx == 0)
    then none
    else if not (ft.loaded gidx).is_bitmap && not (ft.render_glyph gidx == 0)
    then none
    else if not slot.is_gray
    then none
    else some slot

module _ (screen : Screen) (slot : Slot) (x y : ℕ) where
  abbrev pub gray : ℕ → ℕ → ℕ
  gray gx gy = slot.buffer (u32 (gy * slot.width + gx))

  -- The inner loop, with the columns that are left.
  unfoldable pub draw_columns : ℕ → ℕ → ℕ → List Write
  unfolding fb_pix
  draw_columns gy zero gx = []
  draw_columns gy (suc left) gx =
      let v = gray gx gy in
      (if ltb v 1
        then []
        else fb_pix screen (u16 (x + gx)) (u16 (sub32 y slot.bitmap_top + gy)) (u8 v))
      ++ draw_columns gy left (gx + 1)

  unfoldable pub draw_rows : ℕ → ℕ → List Write
  unfolding draw_columns
  draw_rows zero gy = []
  draw_rows (suc left) gy = draw_columns gy slot.width 0 ++ draw_rows left (gy + 1)

-- The result -1 is `none`; it takes the steps of FB_glyph_get first.
unfoldable pub draw_g : FreeType → Screen → ℕ → ℕ → ℕ → Option (List Write)
unfolding fb_glyph_get draw_rows
draw_g ft screen gidx x y = elim (fb_glyph_get ft gidx) [
  | none ↦ none
  | some slot ↦ some (draw_rows screen slot x y slot.rows 0)
]
