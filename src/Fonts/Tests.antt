-- ===== src/Fonts/Tests.antt =====
-- A glyph of two rows on a small screen.
use yocto_layers.Common.{◌*◌, ◌≡◌, refl, true, some, [], ◌∷◌, arith}
use yocto_layers.Fonts.{Screen, Slot, FreeType, fb_pix, fb_glyph_get, draw_g}
use yocto_layers.Fonts.Painting.{All, InMemory, picture, draw_g_lem}

abbrev screen : Screen
screen = record { xres = 4; yres = 3; bits_per_pixel = 32; smem_len = 48 }

abbrev slot : Slot
slot = record {
  is_bitmap = true;
  is_gray = true;
  rows = 2;
  width = 2;
  bitmap_top = 1;
  buffer = λ n. n * 3;
}

abbrev free_type : FreeType
free_type = record {
  load_glyph = λ _. 0;
  loaded = λ _. slot;
  render_glyph = λ _. 0;
  rendered = λ _. slot;
}

draw_g_lem_example :
    (draw_g free_type screen 5 2 1 ≡ some (picture screen slot 2 1 2 0))
    × All (InMemory screen) (picture screen slot 2 1 2 0)
unfolding fb_glyph_get
draw_g_lem_example =
    draw_g_lem free_type screen 5 2 1 slot refl
      (record { bits = refl; size = refl; small = omega arith })
      (record {
        top = omega arith;
        right = omega arith;
        bottom = omega arith;
        x_small = omega arith;
        y_small = omega arith;
        y_word = omega arith;
      })

-- The place just below the screen is not refused: 4 bytes are written behind the memory.
past_the_end : fb_pix screen 0 3 1 ≡ record { offset = 48; value = 0x1ff_ffff } ∷ []
unfolding fb_pix
past_the_end = refl
