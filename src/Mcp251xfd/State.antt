-- ===== src/Mcp251xfd/State.antt =====
-- struct mcp251xfd_priv and the structures in it (mcp251xfd.h), and what the driver exchanges with
-- the rest of the kernel. A C error code is its positive errno; a flag word whose bits the driver
-- only tests is a record of Booleans.
use yocto_layers.Common.{ℕ, Bool, false, Option, none, List}

pub data Errno : Type 0 where
  eagain ebadmsg eilseq einval enobufs enodev enoent enomem enxio eopnotsupp erange etimedout :
      Errno
  other : ℕ → Errno

-- enum mcp251xfd_model
pub data Model : Type 0 where
  mcp2517fd mcp2518fd mcp251xfd : Model

-- The MCP251XFD_QUIRK_* bits.
pub record Quirks : Type 0 where
  pub mab_no_warn : Bool
  pub crc_reg : Bool
  pub crc_rx : Bool
  pub crc_tx : Bool
  pub ecc : Bool
  pub half_duplex : Bool

-- struct mcp251xfd_devtype_data
pub record DevtypeData : Type 0 where
  pub model : Model
  pub quirks : Quirks

-- The CAN_CTRLMODE_* bits of priv->can.ctrlmode that the driver reads.
pub record CtrlMode : Type 0 where
  pub loopback : Bool
  pub listenonly : Bool
  pub one_shot : Bool
  pub berr_reporting : Bool
  pub fd : Bool
  pub fd_non_iso : Bool

-- struct can_bittiming, the fields that the driver programs
pub record Bittiming : Type 0 where
  pub brp : ℕ
  pub prop_seg : ℕ
  pub phase_seg1 : ℕ
  pub phase_seg2 : ℕ
  pub sjw : ℕ

-- enum can_state
pub data CanState : Type 0 where
  error_active error_warning error_passive bus_off stopped sleeping : CanState

-- the value of the C enumerator
abbrev pub state_rank : CanState → ℕ
state_rank error_active = 0
state_rank error_warning = 1
state_rank error_passive = 2
state_rank bus_off = 3
state_rank stopped = 4
state_rank sleeping = 5

-- struct mcp251xfd_hw_tef_obj
pub record HwTefObj : Type 0 where
  pub id : ℕ
  pub flags : ℕ
  pub ts : ℕ

-- struct mcp251xfd_hw_rx_obj_canfd; the shorter _can object is a prefix of it
pub record HwRxObj : Type 0 where
  pub id : ℕ
  pub flags : ℕ
  pub ts : ℕ
  pub payload : List ℕ

-- struct canfd_frame: can_id, len, flags and the payload bytes
pub record CanFrame : Type 0 where
  pub can_id : ℕ
  pub len : ℕ
  pub flags : ℕ
  pub payload : List ℕ

-- struct spi_transfer: how many bytes of its buffer it sends, and whether chip select is left active
-- after it as the last of a message
pub record Xfer : Type 0 where
  pub len : ℕ
  pub cs_change : Bool

-- struct mcp251xfd_tef_ring
pub record TefRing : Type 0 where
  pub head : ℕ
  pub tail : ℕ
  pub uinc_buf : List ℕ
  pub uinc_xfer : List Xfer

-- struct mcp251xfd_tx_obj: the bytes of `buf`, and the lengths of `xfer[0]` and `xfer[1]`
pub record TxObj : Type 0 where
  pub buf : List ℕ
  pub load_len : ℕ
  pub rts_len : ℕ

-- struct mcp251xfd_tx_ring
pub record TxRing : Type 0 where
  pub head : ℕ
  pub tail : ℕ
  pub base : ℕ
  pub obj_num : ℕ
  pub obj_size : ℕ
  pub obj : List TxObj
  pub rts_buf : List ℕ

-- struct mcp251xfd_rx_ring
pub record RxRing : Type 0 where
  pub head : ℕ
  pub tail : ℕ
  pub base : ℕ
  pub nr : ℕ
  pub fifo_nr : ℕ
  pub obj_num : ℕ
  pub obj_size : ℕ
  pub uinc_buf : List ℕ
  pub uinc_xfer : List Xfer

-- struct mcp251xfd_ecc
pub record Ecc : Type 0 where
  pub ecc_stat : ℕ
  pub cnt : ℕ

-- struct can_berr_counter
pub record BerrCounter : Type 0 where
  pub txerr : ℕ
  pub rxerr : ℕ

-- The counters of struct net_device_stats and of can_stats that the driver moves.
pub record Stats : Type 0 where
  pub tx_bytes : ℕ
  pub tx_packets : ℕ
  pub rx_errors : ℕ
  pub tx_errors : ℕ
  pub rx_dropped : ℕ
  pub rx_over_errors : ℕ
  pub rx_fifo_errors : ℕ
  pub tx_aborted_errors : ℕ
  pub bus_error : ℕ

-- The two regmaps of the driver, without and with a checksum.
pub data MapId : Type 0 where
  nocrc crc : MapId

-- The regmaps and their buffers in struct mcp251xfd_priv: whether a pointer is set, and for `map_reg`
-- and `map_rx` the regmap it points to.
pub record Maps : Type 0 where
  pub map_reg : Option MapId
  pub map_rx : Option MapId
  pub map_nocrc : Bool
  pub buf_nocrc_rx : Bool
  pub buf_nocrc_tx : Bool
  pub map_crc : Bool
  pub buf_crc_rx : Bool
  pub buf_crc_tx : Bool

abbrev pub no_maps : Maps
no_maps = record {
  map_reg = none;
  map_rx = none;
  map_nocrc = false;
  buf_nocrc_rx = false;
  buf_nocrc_tx = false;
  map_crc = false;
  buf_crc_rx = false;
  buf_crc_tx = false;
}

-- struct spi_device, the fields that the driver sets
pub record SpiDevice : Type 0 where
  pub max_speed_hz : ℕ
  pub bits_per_word : ℕ
  pub rt : Bool

-- struct mcp251xfd_priv. `rx` holds the rings that are allocated, `rx_int`, `reg_vdd` and
-- `reg_xceiver` say whether the pointer is set, and `intf` is regs_status.intf.
pub record Priv : Type 0 where
  pub ctrlmode : CtrlMode
  pub bittiming : Bittiming
  pub data_bittiming : Bittiming
  pub can_state : CanState
  pub devtype_data : DevtypeData
  pub tef : TefRing
  pub tx : TxRing
  pub rx : List RxRing
  pub ecc : Ecc
  pub intf : ℕ
  pub stats : Stats
  pub bec : BerrCounter
  pub rx_int : Bool
  pub reg_vdd : Bool
  pub reg_xceiver : Bool
  pub if_up : Bool
  pub maps : Maps
  pub spi : SpiDevice
  pub spi_max_speed_hz_orig : ℕ
  pub clock_freq : ℕ
  pub dv_iocon : ℕ
  pub dv_oscva : ℕ
  pub dv_nober : Bool
  pub dv_noslp : Bool

-- What regmap_read_poll_timeout waits for.
pub data PollCond : Type 0 where
  -- (val & mask) == want
  masked : (mask want : ℕ) → PollCond
  -- FIELD_GET(GENMASK(hi, lo), val) == want
  field : (hi lo want : ℕ) → PollCond

-- A call of code outside the driver.
pub data Call : Type 0 where
  -- regmap on map_reg: read, write, update_bits, read_poll_timeout, bulk and raw access
  reg_read : (reg : ℕ) → Call
  reg_write : (reg val : ℕ) → Call
  reg_update_bits : (reg mask val : ℕ) → Call
  reg_poll : (reg : ℕ) → PollCond → Call
  reg_bulk_read : (reg count : ℕ) → Call
  ram_fill : (reg size : ℕ) → Call
  -- regmap on map_rx: TEF objects, RX objects
  tef_bulk_read : (addr words : ℕ) → Call
  rx_bulk_read : (addr words : ℕ) → Call
  -- SPI
  spi_write_then_read : (cmd : ℕ) → Call
  spi_sync_transfer : (buf : List ℕ) → (xfers : List Xfer) → Call
  spi_write : (bytes : List ℕ) → Call
  spi_sync_full : (tx : List ℕ) → Call
  spi_sync_half : (tx : List ℕ) → (rx_len : ℕ) → Call
  spi_async : (load rts : List ℕ) → Call
  -- the network device and its queue
  netif_start_queue netif_stop_queue netif_wake_queue : Call
  can_dropped_invalid_skb : CanFrame → Call
  can_put_echo_skb : (idx : ℕ) → Call
  can_rx_offload_get_echo_skb : (idx ts : ℕ) → Call
  can_rx_offload_queue_sorted : CanFrame → (ts : ℕ) → Call
  can_rx_offload_enable can_rx_offload_disable : Call
  alloc_can_skb alloc_canfd_skb alloc_can_err_skb : Call
  can_change_state : (cf : Option CanFrame) → (tx rx : CanState) → Call
  can_bus_off : Call
  open_candev close_candev register_candev unregister_candev : Call
  -- memory, power, clocks, pins, interrupts
  kzalloc : (size : ℕ) → Call
  -- of NULL, kfree does nothing
  kfree kfree_null : Call
  gpiod_get_value : Call
  gpiod_put : Call
  clk_prepare_enable clk_disable_unprepare : Call
  vdd_enable vdd_disable xceiver_enable xceiver_disable : Call
  pm_runtime_get_sync pm_runtime_put pm_runtime_put_noidle pm_runtime_get_noresume : Call
  pm_runtime_set_active pm_runtime_enable pm_runtime_disable : Call
  request_threaded_irq free_irq : Call
  usleep : Call
  -- what the kernel hands out for the device, and takes back with it
  devm_gpiod_get_optional devm_clk_get clk_get_rate : Call
  devm_get_vdd devm_get_xceiver : Call
  devm_regmap_init : MapId → Call
  devm_kzalloc devm_kfree : Call
  alloc_candev free_candev : Call
  spi_setup : Call
  can_rx_offload_add can_rx_offload_del : Call

-- What such a call gives back: its error code, the number it returns or stores, and the objects.
pub record Reply : Type 0 where
  pub err : Option Errno
  pub val : ℕ
  pub tef_objs : List HwTefObj
  pub rx_objs : List HwRxObj
  pub bytes : List ℕ
  pub frame : CanFrame
  pub state : CanState
