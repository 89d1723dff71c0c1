-- ===== src/Mcp251xfd/Device/Calm/Setup.antt =====
-- The same for the regmaps, the detection of the chip and the rings.
use yocto_layers.Common.{ℕ, Bool, true, false, not, ◌==◌, if◌then◌else◌}
use yocto_layers.Mcp251xfd.Monad.{Env, M}
use yocto_layers.Mcp251xfd.State.{
  Maps, MapId, nocrc, crc, devm_regmap_init, devm_kzalloc, devm_kfree, enomem, gpiod_put,
}
use yocto_layers.Mcp251xfd.Regs
use yocto_layers.Mcp251xfd.Regs.{any_bit}
use yocto_layers.Mcp251xfd.Does.{
  get-Does, when-Does, modify-Does, if-Does, bind-Does, then-Does, failing_with-Does, ask-Does,
  call-Keeps, tell-Keeps, modify-Keeps,
}
use yocto_layers.Mcp251xfd.Maps.{
  regmap_init, regmap_init_nocrc, regmap_destroy_nocrc, regmap_init_crc, regmap_destroy_crc,
  ensure_map, ensure_buf, drop_buf, use_nocrc, use_crc, on_maps, set_up_nocrc, take_down_nocrc,
  set_up_crc, take_down_crc, point_nocrc, point_crc,
}
use yocto_layers.Mcp251xfd.Device.{
  register_chip_detect, register_check_rx_int, register_quirks, devtype_mcp2517fd,
  devtype_mcp2518fd,
}
use yocto_layers.Mcp251xfd.Device.Held.{Held, Wiring}
use yocto_layers.Mcp251xfd.Device.Calm.{Calm, rx_int_enable-Calm, rx_int_disable-Calm}

module _ (h : Held) (w : Wiring) ⦃env : Env⦄ where
  ensure_map-Calm :
      (there : Bool) (which : MapId) (f : Maps → Maps) → Calm h w (ensure_map there which f)
  unfolding ensure_map
  ensure_map-Calm there which f = when-Does (not there) (
      bind-Does (call-Keeps (devm_regmap_init which) (λ s i. i))
        λ _. modify-Keeps (on_maps f) (λ s i. i))

  ensure_buf-Calm : (there : Bool) (f : Maps → Maps) → Calm h w (ensure_buf there f)
  unfolding ensure_buf
  ensure_buf-Calm there f = when-Does (not there) (
      bind-Does (failing_with-Does enomem (call-Keeps devm_kzalloc (λ s i. i)))
        λ _. modify-Keeps (on_maps f) (λ s i. i))

  drop_buf-Calm : (there : Bool) (f : Maps → Maps) → Calm h w (drop_buf there f)
  unfolding drop_buf
  drop_buf-Calm there f =
      when-Does there
        (then-Does (tell-Keeps devm_kfree (λ s i. i)) (modify-Keeps (on_maps f) (λ s i. i)))

  init_nocrc-Calm : Calm h w regmap_init_nocrc
  unfolding regmap_init_nocrc set_up_nocrc
  init_nocrc-Calm = bind-Does get-Does λ q.
      then-Does (ensure_map-Calm q.maps.map_nocrc nocrc (λ m. record m { map_nocrc = true })) (
        then-Does (ensure_buf-Calm q.maps.buf_nocrc_rx (λ m. record m { buf_nocrc_rx = true })) (
          then-Does (ensure_buf-Calm q.maps.buf_nocrc_tx (λ m. record m { buf_nocrc_tx = true })) (
            modify-Keeps
              (on_maps (point_nocrc q.devtype_data.quirks.crc_reg q.devtype_data.quirks.crc_rx))
              (λ s i. i))))

  destroy_nocrc-Calm : Calm h w regmap_destroy_nocrc
  unfolding regmap_destroy_nocrc take_down_nocrc
  destroy_nocrc-Calm = bind-Does get-Does λ q.
      then-Does (drop_buf-Calm q.maps.buf_nocrc_rx (λ m. record m { buf_nocrc_rx = false }))
        (drop_buf-Calm q.maps.buf_nocrc_tx (λ m. record m { buf_nocrc_tx = false }))

  init_crc-Calm : Calm h w regmap_init_crc
  unfolding regmap_init_crc set_up_crc
  init_crc-Calm = bind-Does get-Does λ q.
      then-Does (ensure_map-Calm q.maps.map_crc crc (λ m. record m { map_crc = true })) (
        then-Does (ensure_buf-Calm q.maps.buf_crc_rx (λ m. record m { buf_crc_rx = true })) (
          then-Does (ensure_buf-Calm q.maps.buf_crc_tx (λ m. record m { buf_crc_tx = true })) (
            modify-Keeps
              (on_maps (point_crc q.devtype_data.quirks.crc_reg q.devtype_data.quirks.crc_rx))
              (λ s i. i))))

  destroy_crc-Calm : Calm h w regmap_destroy_crc
  unfolding regmap_destroy_crc take_down_crc
  destroy_crc-Calm = bind-Does get-Does λ q.
      then-Does (drop_buf-Calm q.maps.buf_crc_rx (λ m. record m { buf_crc_rx = false }))
        (drop_buf-Calm q.maps.buf_crc_tx (λ m. record m { buf_crc_tx = false }))

  pub regmap_init-Calm : Calm h w regmap_init
  unfolding regmap_init
  regmap_init-Calm = bind-Does get-Does λ p.
      then-Does (if-Does (use_nocrc p.devtype_data.quirks) init_nocrc-Calm destroy_nocrc-Calm)
        (if-Does (use_crc p.devtype_data.quirks) init_crc-Calm destroy_crc-Calm)

  pub chip_detect-Calm :
      (z : ℕ) (half_duplex : Bool) (init : M (Unit {0}))
      → Calm h w init
      → Calm h w (register_chip_detect z half_duplex init)
  unfolding register_chip_detect
  chip_detect-Calm z half_duplex init k = bind-Does (call-Keeps _ (λ s i. i)) λ _.
      bind-Does (call-Keeps _ (λ s i. i)) λ r.
        then-Does
          (modify-Does
            (λ p. record p {
              devtype_data =
                  register_quirks half_duplex
                    (if any_bit r.val Regs.osc_lpmen then devtype_mcp2518fd else devtype_mcp2517fd);
            })
            (λ s i. i))
          k

  pub check_rx_int-Calm : (z : ℕ) → Calm h w (register_check_rx_int z)
  unfolding register_check_rx_int
  check_rx_int-Calm z = bind-Does get-Does λ p. when-Does p.rx_int (
      then-Does (rx_int_enable-Calm h w) (
        bind-Does (ask-Does _ (λ s i. i)) λ r. then-Does (rx_int_disable-Calm h w) (
          when-Does (not (r.val == 0)) (
            then-Does (tell-Keeps gpiod_put (λ s i. i))
              (modify-Keeps (λ q. record q { rx_int = false }) (λ s i. i))))))
