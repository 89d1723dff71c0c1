-- ===== src/Mcp251xfd/Maps/Choice.antt =====
-- Which regmaps and buffers mcp251xfd_regmap_init leaves, as a function of the two quirks alone.
use yocto_layers.Common.{Bool, true, false, not, ◌||◌, ◌≡◌, refl, sym, ap, ◌∙◌, some, if◌then◌else◌}
use yocto_layers.Mcp251xfd.Monad.{Env, Drv, M, pure, modify, ◌>>◌}
use yocto_layers.Mcp251xfd.State.{
  Maps, Priv, MapId, nocrc, crc, enomem, devm_regmap_init, devm_kzalloc, devm_kfree,
}
use yocto_layers.Mcp251xfd.Does.{
  Does, pure-Does, weaken-Does, get-bind-Does, bind-Does, then-Does, failing_with-Does, settle-Does,
  tell-Keeps, modify-Does,
}
use yocto_layers.Mcp251xfd.Maps.{
  use_nocrc, use_crc, on_maps, point_nocrc, point_crc, ensure_buf, ensure_map, drop_buf,
  regmap_init_nocrc, regmap_destroy_nocrc, regmap_init_crc, regmap_destroy_crc, regmap_init,
  set_up_nocrc, take_down_nocrc, set_up_crc, take_down_crc,
}

-- The regmap for a purpose, by its quirk.
abbrev pub which : Bool → MapId
which checked = if checked then crc else nocrc

-- The regmaps for registers and for RAM follow the quirks; the buffers that exist are those of the
-- regmaps in use; a regmap, once made, stays.
unfoldable pub chosen : Bool → Bool → Maps → Maps
chosen crc_reg crc_rx m =
    let plain = not crc_reg || not crc_rx in
    let checked = crc_reg || crc_rx in
    record {
      map_reg = some (which crc_reg);
      map_rx = some (which crc_rx);
      map_nocrc = plain || m.map_nocrc;
      buf_nocrc_rx = plain;
      buf_nocrc_tx = plain;
      map_crc = checked || m.map_crc;
      buf_crc_rx = checked;
      buf_crc_tx = checked;
    }

abbrev with_nocrc : Maps → Maps
with_nocrc m = record m { map_nocrc = true; buf_nocrc_rx = true; buf_nocrc_tx = true }

abbrev without_nocrc : Maps → Maps
without_nocrc m = record m { buf_nocrc_rx = false; buf_nocrc_tx = false }

abbrev with_crc : Maps → Maps
with_crc m = record m { map_crc = true; buf_crc_rx = true; buf_crc_tx = true }

abbrev without_crc : Maps → Maps
without_crc m = record m { buf_crc_rx = false; buf_crc_tx = false }

-- The private data are `p` with the regmaps `m`.
abbrev pub At : Priv → Maps → Drv → Type 0
At p m s = s.priv ≡ record p { maps = m }

abbrev first_half : Bool → Bool → Maps → Maps
first_half crc_reg crc_rx m =
    if not crc_reg || not crc_rx then point_nocrc crc_reg crc_rx (with_nocrc m) else without_nocrc m

abbrev second_half : Bool → Bool → Maps → Maps
second_half crc_reg crc_rx m =
    if crc_reg || crc_rx then point_crc crc_reg crc_rx (with_crc m) else without_crc m

both-chosen :
    (crc_reg crc_rx : Bool) (m : Maps)
    → second_half crc_reg crc_rx (first_half crc_reg crc_rx m) ≡ chosen crc_reg crc_rx m
unfolding point_nocrc point_crc chosen
both-chosen true true m = refl
both-chosen true false m = refl
both-chosen false true m = refl
both-chosen false false m = refl

module _ (p : Priv) ⦃env : Env⦄ where
  abbrev Reaches : Maps → Maps → M (Unit {0}) → Type 0
  Reaches m n act = Does (At p m) (At p n) (λ _. Unit {0}) act

  set-At : (m : Maps) (f : Maps → Maps) → Reaches m (f m) (modify (on_maps f))
  set-At m f = modify-Does (on_maps f) (λ s i. ap (on_maps f) i)

  stay-At : (m n : Maps) → n ≡ m → Reaches m n (pure tt)
  stay-At m n e =
      weaken-Does {I = At p m} (pure-Does tt) (λ s i. i)
        (λ s i. i ∙ ap (λ k. record p { maps = k }) (sym e)) (λ s i. i)

  ensure_map-At :
      (m : Maps) (there : Bool) (id : MapId) (f : Maps → Maps)
      → (there ≡ true → f m ≡ m)
      → Reaches m (f m) (ensure_map there id f)
  unfolding ensure_map
  ensure_map-At m true id f same = stay-At m (f m) (same refl)
  ensure_map-At m false id f same =
      bind-Does (settle-Does (devm_regmap_init id) (λ s i _. i) (λ s i e _. tt)) (λ _. set-At m f)

  ensure_buf-At :
      (m : Maps) (there : Bool) (f : Maps → Maps)
      → (there ≡ true → f m ≡ m)
      → Reaches m (f m) (ensure_buf there f)
  unfolding ensure_buf
  ensure_buf-At m true f same = stay-At m (f m) (same refl)
  ensure_buf-At m false f same =
      bind-Does (failing_with-Does enomem (settle-Does devm_kzalloc (λ s i _. i) (λ s i e _. tt)))
        (λ _. set-At m f)

  drop_buf-At :
      (m : Maps) (there : Bool) (f : Maps → Maps)
      → (there ≡ false → f m ≡ m)
      → Reaches m (f m) (drop_buf there f)
  unfolding drop_buf
  drop_buf-At m false f same = stay-At m (f m) (same refl)
  drop_buf-At m true f same = then-Does (tell-Keeps devm_kfree (λ s i. i)) (set-At m f)

  init_nocrc-At :
      (m : Maps)
      → Reaches m
          (point_nocrc p.devtype_data.quirks.crc_reg p.devtype_data.quirks.crc_rx (with_nocrc m))
          regmap_init_nocrc
  unfolding regmap_init_nocrc set_up_nocrc
  init_nocrc-At m =
      let q = p.devtype_data.quirks in
      get-bind-Does (λ k. set_up_nocrc k.devtype_data.quirks k.maps) (record p { maps = m })
        (λ s i. i)
        (then-Does
          (ensure_map-At m m.map_nocrc nocrc (λ k. record k { map_nocrc = true })
            (λ e. ap (λ b. record m { map_nocrc = b }) (sym e)))
          (then-Does
            (ensure_buf-At (record m { map_nocrc = true }) m.buf_nocrc_rx
              (λ k. record k { buf_nocrc_rx = true })
              (λ e. ap (λ b. record m { map_nocrc = true; buf_nocrc_rx = b }) (sym e)))
            (then-Does
              (ensure_buf-At (record m { map_nocrc = true; buf_nocrc_rx = true }) m.buf_nocrc_tx
                (λ k. record k { buf_nocrc_tx = true })
                (λ e.
                  ap (λ b. record m { map_nocrc = true; buf_nocrc_rx = true; buf_nocrc_tx = b })
                    (sym e)))
              (set-At (with_nocrc m) (point_nocrc q.crc_reg q.crc_rx)))))

  destroy_nocrc-At : (m : Maps) → Reaches m (without_nocrc m) regmap_destroy_nocrc
  unfolding regmap_destroy_nocrc take_down_nocrc
  destroy_nocrc-At m =
      get-bind-Does (λ k. take_down_nocrc k.maps) (record p { maps = m }) (λ s i. i)
        (then-Does
          (drop_buf-At m m.buf_nocrc_rx (λ k. record k { buf_nocrc_rx = false })
            (λ e. ap (λ b. record m { buf_nocrc_rx = b }) (sym e)))
          (drop_buf-At (record m { buf_nocrc_rx = false }) m.buf_nocrc_tx
            (λ k. record k { buf_nocrc_tx = false })
            (λ e. ap (λ b. record m { buf_nocrc_rx = false; buf_nocrc_tx = b }) (sym e))))

  init_crc-At :
      (m : Maps)
      → Reaches m
          (point_crc p.devtype_data.quirks.crc_reg p.devtype_data.quirks.crc_rx (with_crc m))
          regmap_init_crc
  unfolding regmap_init_crc set_up_crc
  init_crc-At m =
      let q = p.devtype_data.quirks in
      get-bind-Does (λ k. set_up_crc k.devtype_data.quirks k.maps) (record p { maps = m })
        (λ s i. i)
        (then-Does
          (ensure_map-At m m.map_crc crc (λ k. record k { map_crc = true })
            (λ e. ap (λ b. record m { map_crc = b }) (sym e)))
          (then-Does
            (ensure_buf-At (record m { map_crc = true }) m.buf_crc_rx
              (λ k. record k { buf_crc_rx = true })
              (λ e. ap (λ b. record m { map_crc = true; buf_crc_rx = b }) (sym e)))
            (then-Does
              (ensure_buf-At (record m { map_crc = true; buf_crc_rx = true }) m.buf_crc_tx
                (λ k. record k { buf_crc_tx = true })
                (λ e.
                  ap (λ b. record m { map_crc = true; buf_crc_rx = true; buf_crc_tx = b }) (sym e)))
              (set-At (with_crc m) (point_crc q.crc_reg q.crc_rx)))))

  destroy_crc-At : (m : Maps) → Reaches m (without_crc m) regmap_destroy_crc
  unfolding regmap_destroy_crc take_down_crc
  destroy_crc-At m =
      get-bind-Does (λ k. take_down_crc k.maps) (record p { maps = m }) (λ s i. i)
        (then-Does
          (drop_buf-At m m.buf_crc_rx (λ k. record k { buf_crc_rx = false })
            (λ e. ap (λ b. record m { buf_crc_rx = b }) (sym e)))
          (drop_buf-At (record m { buf_crc_rx = false }) m.buf_crc_tx
            (λ k. record k { buf_crc_tx = false })
            (λ e. ap (λ b. record m { buf_crc_rx = false; buf_crc_tx = b }) (sym e))))

  either-At :
      (b : Bool) {m n k : Maps} {act other : M (Unit {0})}
      → Reaches m n act
      → Reaches m k other
      → Reaches m (if b then n else k) (if b then act else other)
  either-At true f g = f
  either-At false f g = g

-- When mcp251xfd_regmap_init succeeds, whatever regmaps and buffers there were before, the regmaps for
-- registers and RAM and the buffers are those that the quirks of the device call for, and nothing else
-- of the private data has changed. It comes to an end for every sequence of replies.
pub regmap_init-chosen :
    (p : Priv) ⦃env : Env⦄
    → Does
        (λ s. s.priv ≡ p)
        (At p (chosen p.devtype_data.quirks.crc_reg p.devtype_data.quirks.crc_rx p.maps))
        (λ _. Unit {0})
        regmap_init
unfolding regmap_init use_nocrc use_crc
regmap_init-chosen p =
    let q = p.devtype_data.quirks in
    get-bind-Does
      (λ k.
        (if use_nocrc k.devtype_data.quirks then regmap_init_nocrc else regmap_destroy_nocrc)
        >> (if use_crc k.devtype_data.quirks then regmap_init_crc else regmap_destroy_crc))
      p (λ s i. i)
      (weaken-Does
        (then-Does
          (either-At p (use_nocrc q) {m = p.maps} (init_nocrc-At p p.maps)
            (destroy_nocrc-At p p.maps))
          (either-At p (use_crc q) {m = first_half q.crc_reg q.crc_rx p.maps} (init_crc-At p _)
            (destroy_crc-At p _)))
        (λ s i. i)
        (λ s i. i ∙ ap (λ k. record p { maps = k }) (both-chosen q.crc_reg q.crc_rx p.maps))
        (λ s i. i))
