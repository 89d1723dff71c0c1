-- ===== src/Mcp251xfd/Tests.antt =====
-- A small device, and runs of the code on it.
mod Life
mod Flows
mod Reports
mod Recovery
mod Receive
use yocto_layers.Common.{
  ◌/◌, ◌≢◌, ◌++◌, ◌+◌, ◌*◌, ◌%◌, ◌^◌, ◌≤◌, ◌<◌, ◌≡◌, refl, true, false, not, none, List, [], ◌∷◌,
  length, get_or, replicate, ◌==◌, if◌then◌else◌, sub32, arith,
}
use yocto_layers.Crc16.{crc16, crc16_compute, crc16_compute2}
use yocto_layers.Crc16.Reference.{divide}
use yocto_layers.Crc16.Division.{crc16-eq-divide}
use yocto_layers.Crc16.Frames.{crc16_compute_residue, crc16_compute2-append, be16}
use yocto_layers.Mcp251xfd.State
use yocto_layers.Mcp251xfd.State.{
  Priv, Reply, CanFrame, TefRing, TxRing, RxRing, Xfer, Quirks, Errno, CanState, stopped, Call,
  Stats, HwRxObj,
}
use yocto_layers.Mcp251xfd.Monad.{Env, Drv, pure}
use yocto_layers.Mcp251xfd.Post.{Ends, returns}
use yocto_layers.Mcp251xfd.Ring.{slot, get_tx_free, get_rx_len}
use yocto_layers.Mcp251xfd.Spi.{byte_count, first_byte_set, last_byte_set, cmd_prepare_write_reg}
use yocto_layers.Mcp251xfd.Regs
use yocto_layers.Mcp251xfd.Spi.Image.{byte_count_window, cmd_prepare_write_reg_lem}
use yocto_layers.Mcp251xfd.Setup.{ring_alloc, ring_init, init_tef_ring}
use yocto_layers.Mcp251xfd.Setup.Layout.{InRam, NoRing, ring_alloc-InRam}
use yocto_layers.Mcp251xfd.Reset.{chip_softreset}
use yocto_layers.Mcp251xfd.Reset.Retry as Retry
use yocto_layers.Mcp251xfd.Chip.{chip_stop}
use yocto_layers.Mcp251xfd.Chip.Start.{chip_stop-noslp}
use yocto_layers.Mcp251xfd.Tef.{tef_new_head, handle_tefif, release_last, tef_advance}
use yocto_layers.Mcp251xfd.Tef.Head.{tef_new_head_lem, rx_new_head_lem}
use yocto_layers.Mcp251xfd.Tef.Progress.{InStep, handle_tefif-InStep}
use yocto_layers.Mcp251xfd.Tef.Release.{no_xfer, tef_release_lem}
use yocto_layers.Mcp251xfd.Rx.{rx_new_head, rx_ring, handle_rxif_ring, hw_rx_obj_to_skb}
use yocto_layers.Mcp251xfd.Rx.Drain.{handle_rxif_ring-Ends, AnyError}
use yocto_layers.Mcp251xfd.Rx.RoundTrip.{received, hw_rx_obj_to_skb-received}
use yocto_layers.Mcp251xfd.Tx.{tx_id, tx_flags, start_xmit, tx_busy_code}
use yocto_layers.Mcp251xfd.Tx.Space.{Fits, NoError, start_xmit-Fits}
use yocto_layers.Mcp251xfd.Errors.{ivmif_report}
use yocto_layers.Mcp251xfd.Errors.Counters.{rx_tests, tx_tests, ivmif_report-counts}
use yocto_layers.Mcp251xfd.Regmap.{regmap_crc_read}
use yocto_layers.Mcp251xfd.Regmap.Retry.{Checked, Within, regmap_crc_read-Ends}
use yocto_layers.Mcp251xfd.Irq.{irq_loop}
use yocto_layers.Mcp251xfd.Device.{ndo_open}
use yocto_layers.Mcp251xfd.Monad.{ok}

abbrev no_frame : CanFrame
no_frame = record { can_id = 0; len = 0; flags = 0; payload = [] }

-- Every call succeeds, and every register reads 0x300.
abbrev example_env : Env
example_env = record {
  answer = λ _. record {
    err = none;
    val = 0x300;
    tef_objs = [];
    rx_objs = [];
    bytes = [];
    frame = no_frame;
    state = State.error_active;
  };
  sanity = false;
  dlc2len = λ n. n;
  len2dlc = λ n. n;
  stack = record { txerr = 0; rxerr = 0 };
}

abbrev timing : State.Bittiming
timing = record { brp = 1; prop_seg = 2; phase_seg1 = 3; phase_seg2 = 4; sjw = 1 }

abbrev all_quirks : Quirks
all_quirks = record {
  mab_no_warn = false;
  crc_reg = true;
  crc_rx = true;
  crc_tx = true;
  ecc = true;
  half_duplex = false;
}

abbrev no_stats : Stats
no_stats = record {
  tx_bytes = 0;
  tx_packets = 0;
  rx_errors = 0;
  tx_errors = 0;
  rx_dropped = 0;
  rx_over_errors = 0;
  rx_fifo_errors = 0;
  tx_aborted_errors = 0;
  bus_error = 0;
}

abbrev xfers : List Xfer
xfers = replicate 32 (record { len = 6; cs_change = true })

abbrev example_tef : TefRing
example_tef = record { head = 5; tail = 5; uinc_buf = []; uinc_xfer = xfers }

abbrev example_tx : TxRing
example_tx = record {
  head = 7;
  tail = 5;
  base = 0x460;
  obj_num = 8;
  obj_size = 16;
  obj = [];
  rts_buf = [];
}

abbrev example_rx : RxRing
example_rx = record {
  head = 30;
  tail = 30;
  base = 0x4e0;
  nr = 0;
  fifo_nr = 2;
  obj_num = 32;
  obj_size = 20;
  uinc_buf = [];
  uinc_xfer = xfers;
}

abbrev example_priv : Priv
example_priv = record {
  ctrlmode = record {
    loopback = false;
    listenonly = false;
    one_shot = false;
    berr_reporting = false;
    fd = false;
    fd_non_iso = false;
  };
  bittiming = timing;
  data_bittiming = timing;
  can_state = State.error_active;
  devtype_data = record { model = State.mcp2518fd; quirks = all_quirks };
  tef = example_tef;
  tx = example_tx;
  rx = example_rx ∷ [];
  ecc = record { ecc_stat = 0; cnt = 0 };
  intf = 0;
  stats = no_stats;
  bec = record { txerr = 0; rxerr = 0 };
  rx_int = true;
  reg_vdd = true;
  reg_xceiver = true;
  if_up = true;
  maps = State.no_maps;
  spi = record { max_speed_hz = 20_000_000; bits_per_word = 8; rt = true };
  spi_max_speed_hz_orig = 20_000_000;
  clock_freq = 40_000_000;
  dv_iocon = 0;
  dv_oscva = 0;
  dv_nober = false;
  dv_noslp = true;
}

abbrev example_drv : Drv
example_drv = record { priv = example_priv; calls = [] }

abbrev example_frame : CanFrame
example_frame = record { can_id = 0x9234_5678; len = 2; flags = 3; payload = 1 ∷ 2 ∷ [] }

crc16-eq-divide_example : crc16 0xffff (0x12 ∷ 0xfe ∷ []) ≡ divide 0xffff (0x12 ∷ 0xfe ∷ [])
crc16-eq-divide_example =
    crc16-eq-divide 0xffff (0x12 ∷ 0xfe ∷ []) (omega arith)
      (omega arith, (omega arith, omega arith))

crc16_compute_residue_example :
    crc16_compute ((0x12 ∷ 0xfe ∷ []) ++ be16 (crc16_compute (0x12 ∷ 0xfe ∷ []))) ≡ 0
crc16_compute_residue_example = crc16_compute_residue (0x12 ∷ 0xfe ∷ [])

crc16_compute2-append_example :
    crc16_compute2 (0xb0 ∷ []) (0x12 ∷ []) ≡ crc16_compute ((0xb0 ∷ []) ++ 0x12 ∷ [])
crc16_compute2-append_example = crc16_compute2-append (0xb0 ∷ []) (0x12 ∷ [])

byte_count_window_example :
    (byte_count 0x00ff_0300 + first_byte_set 0x00ff_0300 ≡ last_byte_set 0x00ff_0300 + 1)
    × (last_byte_set 0x00ff_0300 ≤ 3)
    × (0x00ff_0300 % 2 ^ (8 * first_byte_set 0x00ff_0300) ≡ 0)
    × (0x00ff_0300 < 2 ^ (8 * (last_byte_set 0x00ff_0300 + 1)))
    × (0x00ff_0300 / 2 ^ (8 * first_byte_set 0x00ff_0300) % 2 ^ 8 ≢ 0)
    × (0x00ff_0300 / 2 ^ (8 * last_byte_set 0x00ff_0300) ≢ 0)
byte_count_window_example = byte_count_window 0x00ff_0300 (omega arith) (omega arith)

cmd_prepare_write_reg_lem_example :
    (length (cmd_prepare_write_reg all_quirks 0x40 0x100 0x100).buf
      ≡ (cmd_prepare_write_reg all_quirks 0x40 0x100 0x100).len)
    × (crc16_compute (cmd_prepare_write_reg all_quirks 0x40 0x100 0x100).buf ≡ 0)
cmd_prepare_write_reg_lem_example =
    cmd_prepare_write_reg_lem all_quirks 0x40 0x100 0x100 refl (omega arith) (omega arith)

ring_alloc-InRam_example :
    Ends
      (λ _ t. InRam (ring_init t.priv))
      NoRing
      (ring_alloc 700 ⦃env = example_env⦄
        (record { priv = record example_priv { rx = [] }; calls = [] }))
ring_alloc-InRam_example = ring_alloc-InRam 700 ⦃env = example_env⦄ example_priv []

chip_softreset-Confirmed_example :
    Ends
      (λ _ t. Retry.Confirmed ⦃env = example_env⦄ t)
      Retry.AnyError
      (chip_softreset ⦃env = example_env⦄ example_drv)
chip_softreset-Confirmed_example = Retry.chip_softreset-Confirmed ⦃env = example_env⦄ example_drv

chip_stop-noslp_example :
    Ends
      (λ _ t. t.priv.can_state ≡ stopped)
      NoError
      (chip_stop ⦃env = example_env⦄ stopped example_drv)
chip_stop-noslp_example = chip_stop-noslp stopped ⦃env = example_env⦄ example_drv refl

tef_new_head_lem_example : tef_new_head example_tef example_tx (7 % 8) ≡ 7
tef_new_head_lem_example =
    tef_new_head_lem 3 7 example_tef example_tx refl (omega arith) (omega arith) (omega arith)
      (omega arith) (omega arith)

rx_new_head_lem_example : rx_new_head example_rx (33 % 32) ≡ 33
rx_new_head_lem_example =
    rx_new_head_lem 5 33 example_rx refl (omega arith) (omega arith) (omega arith) (omega arith)

handle_tefif-InStep_example :
    Ends (λ _ t. InStep 0 t.priv) AnyError (handle_tefif ⦃env = example_env⦄ example_drv)
handle_tefif-InStep_example = handle_tefif-InStep ⦃env = example_env⦄ example_drv refl

tef_release_lem_example :
    (length (release_last 2 (init_tef_ring all_quirks example_tef).uinc_xfer) ≡ 2)
    × (get_or (release_last 2 (init_tef_ring all_quirks example_tef).uinc_xfer) 1 no_xfer ≡ record {
      len = (cmd_prepare_write_reg all_quirks Regs.tefcon Regs.tefcon_uinc Regs.tefcon_uinc).len;
      cs_change = not (1 + 1 == 2);
    })
tef_release_lem_example =
    tef_release_lem all_quirks example_tef 2 1 no_xfer (omega arith) (omega arith)

handle_rxif_ring-Ends_example :
    Ends
      (λ _ t. get_rx_len (rx_ring 0 t.priv) ≡ 0)
      AnyError
      (handle_rxif_ring ⦃env = example_env⦄ 0 example_drv)
handle_rxif_ring-Ends_example =
    handle_rxif_ring-Ends ⦃env = example_env⦄ 5 0 example_drv (omega arith) (omega arith) refl
      (omega arith)

hw_rx_obj_to_skb-received_example :
    hw_rx_obj_to_skb
      (λ n. n)
      (record {
        id = tx_id example_frame.can_id;
        flags = tx_flags example_frame true 2 7;
        ts = 99;
        payload = example_frame.payload;
      })
    ≡ received (λ n. n) example_frame example_frame.payload true 2
hw_rx_obj_to_skb-received_example =
    hw_rx_obj_to_skb-received (λ n. n) example_frame example_frame.payload true 2 7 99 (omega arith)

-- The FIFO is full, and the interrupt thread frees an object between the two looks.
abbrev full_drv : Drv
full_drv = record {
  priv = record example_priv { tx = record example_tx { head = 13 } };
  calls = [];
}

start_xmit-Fits_example :
    Ends
      (λ r t. Fits 8 t.priv.tx × (r ≡ tx_busy_code → get_tx_free t.priv.tx ≡ 0))
      NoError
      (start_xmit ⦃env = example_env⦄
        (tef_advance ⦃env = example_env⦄ 1)
        example_frame
        true
        full_drv)
unfolding tef_advance
start_xmit-Fits_example =
    start_xmit-Fits 8 (omega arith) ⦃env = example_env⦄ (tef_advance ⦃env = example_env⦄ 1)
      example_frame true full_drv (returns (refl, omega arith, omega arith))
      (refl, omega arith, omega arith)

ivmif_report-counts_example :
    ((ivmif_report 0x0003_0000 (record { stats = no_stats; cf = no_frame })).stats.rx_errors
      ≡ 0 + rx_tests 0x0003_0000)
    × ((ivmif_report 0x0003_0000 (record { stats = no_stats; cf = no_frame })).stats.tx_errors
        ≡ 0 + tx_tests 0x0003_0000)
ivmif_report-counts_example =
    ivmif_report-counts 0x0003_0000 (record { stats = no_stats; cf = no_frame })

regmap_crc_read-Ends_example :
    Ends
      (λ bytes t. Checked ⦃env = example_env⦄ 4 4 bytes t × Within 9 example_drv t)
      (λ _ t. Within 9 example_drv t)
      (regmap_crc_read ⦃env = example_env⦄ 4 4 example_drv)
regmap_crc_read-Ends_example = regmap_crc_read-Ends 4 4 example_drv ⦃env = example_env⦄
