-- ===== src/Mcp251xfd/Maps.antt =====
-- mcp251xfd_regmap_init of mcp251xfd-regmap.c: setting up the two regmaps and their buffers, again
-- whenever the quirks of the device have changed.
pub mod Choice
use yocto_layers.Common.{Bool, true, false, not, ◌||◌, none, some, if◌then◌else◌}
use yocto_layers.Mcp251xfd.Monad.{
  Env, M, ◌>>=◌, ◌>>◌, pure, get, modify, when, failing_with, call, tell,
}
use yocto_layers.Mcp251xfd.State.{
  Quirks, Maps, Priv, MapId, nocrc, crc, enomem, Call, devm_regmap_init, devm_kzalloc, devm_kfree,
}

unfoldable pub use_nocrc : Quirks → Bool
use_nocrc q = not q.crc_reg || not q.crc_rx

unfoldable pub use_crc : Quirks → Bool
use_crc q = q.crc_reg || q.crc_rx

-- A change of the regmaps alone.
abbrev pub on_maps : (Maps → Maps) → Priv → Priv
on_maps f p = record p { maps = f p.maps }

-- The last two tests of mcp251xfd_regmap_init_nocrc, and of mcp251xfd_regmap_init_crc,
-- given the two quirks.
unfoldable pub point_nocrc : Bool → Bool → Maps → Maps
point_nocrc crc_reg crc_rx m = record m {
  map_reg = if crc_reg then m.map_reg else some nocrc;
  map_rx = if crc_rx then m.map_rx else some nocrc;
}

unfoldable pub point_crc : Bool → Bool → Maps → Maps
point_crc crc_reg crc_rx m = record m {
  map_reg = if crc_reg then some crc else m.map_reg;
  map_rx = if crc_rx then some crc else m.map_rx;
}

module _ ⦃env : Env⦄ where
  -- `if (!pointer) { pointer = ...; if (!pointer) return -ENOMEM; }`
  unfoldable pub ensure_buf : Bool → (Maps → Maps) → M (Unit {0})
  ensure_buf there set_it =
      when (not there) (do failing_with enomem (call devm_kzalloc); modify (on_maps set_it))

  unfoldable pub ensure_map : Bool → MapId → (Maps → Maps) → M (Unit {0})
  ensure_map there which set_it =
      when (not there) (do call (devm_regmap_init which); modify (on_maps set_it))

  -- `if (pointer) { devm_kfree; pointer = NULL; }`
  unfoldable pub drop_buf : Bool → (Maps → Maps) → M (Unit {0})
  drop_buf there clear_it = when there (do tell devm_kfree; modify (on_maps clear_it))

  unfoldable pub set_up_nocrc : Quirks → Maps → M (Unit {0})
  unfolding ensure_map ensure_buf point_nocrc
  set_up_nocrc q m = do
    ensure_map m.map_nocrc nocrc (λ k. record k { map_nocrc = true })
    ensure_buf m.buf_nocrc_rx (λ k. record k { buf_nocrc_rx = true })
    ensure_buf m.buf_nocrc_tx (λ k. record k { buf_nocrc_tx = true })
    modify (on_maps (point_nocrc q.crc_reg q.crc_rx))

  unfoldable pub regmap_init_nocrc : M (Unit {0})
  unfolding set_up_nocrc
  regmap_init_nocrc = do p ← get; set_up_nocrc p.devtype_data.quirks p.maps

  unfoldable pub take_down_nocrc : Maps → M (Unit {0})
  unfolding drop_buf
  take_down_nocrc m = do
    drop_buf m.buf_nocrc_rx (λ k. record k { buf_nocrc_rx = false })
    drop_buf m.buf_nocrc_tx (λ k. record k { buf_nocrc_tx = false })

  unfoldable pub regmap_destroy_nocrc : M (Unit {0})
  unfolding take_down_nocrc
  regmap_destroy_nocrc = do p ← get; take_down_nocrc p.maps

  unfoldable pub set_up_crc : Quirks → Maps → M (Unit {0})
  unfolding ensure_map ensure_buf point_crc
  set_up_crc q m = do
    ensure_map m.map_crc crc (λ k. record k { map_crc = true })
    ensure_buf m.buf_crc_rx (λ k. record k { buf_crc_rx = true })
    ensure_buf m.buf_crc_tx (λ k. record k { buf_crc_tx = true })
    modify (on_maps (point_crc q.crc_reg q.crc_rx))

  unfoldable pub regmap_init_crc : M (Unit {0})
  unfolding set_up_crc
  regmap_init_crc = do p ← get; set_up_crc p.devtype_data.quirks p.maps

  unfoldable pub take_down_crc : Maps → M (Unit {0})
  unfolding drop_buf
  take_down_crc m = do
    drop_buf m.buf_crc_rx (λ k. record k { buf_crc_rx = false })
    drop_buf m.buf_crc_tx (λ k. record k { buf_crc_tx = false })

  unfoldable pub regmap_destroy_crc : M (Unit {0})
  unfolding take_down_crc
  regmap_destroy_crc = do p ← get; take_down_crc p.maps

  unfoldable pub regmap_init : M (Unit {0})
  unfolding use_nocrc use_crc regmap_init_nocrc regmap_destroy_nocrc regmap_init_crc
      regmap_destroy_crc
  regmap_init = do
    p ← get
    let q = p.devtype_data.quirks
    if use_nocrc q then regmap_init_nocrc else regmap_destroy_nocrc
    if use_crc q then regmap_init_crc else regmap_destroy_crc
