-- ===== src/Mcp251xfd/Regs.antt =====
-- The registers, bits and fields of mcp251xfd.h that the driver uses, under the header's names without
-- MCP251XFD_ and REG_. A BIT is its mask, and a GENMASK the pair of its end bits.
use yocto_layers.Common.{ℕ, ◌+◌, ◌-◌, ◌*◌, ◌/◌, ◌%◌, ◌^◌, bit_and, bit_or, Bool, not, ◌==◌}

-- GENMASK(hi, lo)
pub record Field : Type 0 where
  pub hi : ℕ
  pub lo : ℕ

abbrev pub width : Field → ℕ
width f = f.hi + 1 - f.lo

-- the mask as a number
abbrev pub genmask : Field → ℕ
genmask f = (2 ^ width f - 1) * 2 ^ f.lo

-- FIELD_GET and FIELD_PREP of the mask
abbrev pub field_get : Field → ℕ → ℕ
field_get f v = v / 2 ^ f.lo % 2 ^ width f

abbrev pub field_prep : Field → ℕ → ℕ
field_prep f v = v % 2 ^ width f * 2 ^ f.lo

-- `v & mask` as a condition
abbrev pub any_bit : ℕ → ℕ → Bool
any_bit v mask = not (bit_and v mask == 0)

abbrev pub con : ℕ
con = 0x00

abbrev pub con_reqop_mask : Field
con_reqop_mask = record { hi = 26; lo = 24 }

abbrev pub con_mode_mixed : ℕ
con_mode_mixed = 0

abbrev pub con_mode_sleep : ℕ
con_mode_sleep = 1

abbrev pub con_mode_int_loopback : ℕ
con_mode_int_loopback = 2

abbrev pub con_mode_listenonly : ℕ
con_mode_listenonly = 3

abbrev pub con_mode_config : ℕ
con_mode_config = 4

abbrev pub con_mode_can2_0 : ℕ
con_mode_can2_0 = 6

abbrev pub con_opmod_mask : Field
con_opmod_mask = record { hi = 23; lo = 21 }

abbrev pub con_stef : ℕ
con_stef = 2 ^ 19

abbrev pub con_esigm : ℕ
con_esigm = 2 ^ 17

abbrev pub con_rtxat : ℕ
con_rtxat = 2 ^ 16

abbrev pub con_wft_mask : Field
con_wft_mask = record { hi = 10; lo = 9 }

abbrev pub con_wft_t11filter : ℕ
con_wft_t11filter = 0x3

abbrev pub con_wakfil : ℕ
con_wakfil = 2 ^ 8

abbrev pub con_pxedis : ℕ
con_pxedis = 2 ^ 6

abbrev pub con_isocrcen : ℕ
con_isocrcen = 2 ^ 5

abbrev pub nbtcfg : ℕ
nbtcfg = 0x04

abbrev pub nbtcfg_brp_mask : Field
nbtcfg_brp_mask = record { hi = 31; lo = 24 }

abbrev pub nbtcfg_tseg1_mask : Field
nbtcfg_tseg1_mask = record { hi = 23; lo = 16 }

abbrev pub nbtcfg_tseg2_mask : Field
nbtcfg_tseg2_mask = record { hi = 14; lo = 8 }

abbrev pub nbtcfg_sjw_mask : Field
nbtcfg_sjw_mask = record { hi = 6; lo = 0 }

abbrev pub dbtcfg : ℕ
dbtcfg = 0x08

abbrev pub dbtcfg_brp_mask : Field
dbtcfg_brp_mask = record { hi = 31; lo = 24 }

abbrev pub dbtcfg_tseg1_mask : Field
dbtcfg_tseg1_mask = record { hi = 20; lo = 16 }

abbrev pub dbtcfg_tseg2_mask : Field
dbtcfg_tseg2_mask = record { hi = 11; lo = 8 }

abbrev pub dbtcfg_sjw_mask : Field
dbtcfg_sjw_mask = record { hi = 3; lo = 0 }

abbrev pub tdc : ℕ
tdc = 0x0c

abbrev pub tdc_tdcmod_mask : Field
tdc_tdcmod_mask = record { hi = 17; lo = 16 }

abbrev pub tdc_tdcmod_auto : ℕ
tdc_tdcmod_auto = 2

abbrev pub tdc_tdco_mask : Field
tdc_tdco_mask = record { hi = 14; lo = 8 }

abbrev pub tbc : ℕ
tbc = 0x10

abbrev pub tscon : ℕ
tscon = 0x14

abbrev pub tscon_tbcen : ℕ
tscon_tbcen = 2 ^ 16

abbrev pub int : ℕ
int = 0x1c

abbrev pub int_if_mask : Field
int_if_mask = record { hi = 15; lo = 0 }

abbrev pub int_ie_mask : Field
int_ie_mask = record { hi = 31; lo = 16 }

abbrev pub int_ivmie : ℕ
int_ivmie = 2 ^ 31

abbrev pub int_cerrie : ℕ
int_cerrie = 2 ^ 29

abbrev pub int_serrie : ℕ
int_serrie = 2 ^ 28

abbrev pub int_rxovie : ℕ
int_rxovie = 2 ^ 27

abbrev pub int_txatie : ℕ
int_txatie = 2 ^ 26

abbrev pub int_spicrcie : ℕ
int_spicrcie = 2 ^ 25

abbrev pub int_eccie : ℕ
int_eccie = 2 ^ 24

abbrev pub int_tefie : ℕ
int_tefie = 2 ^ 20

abbrev pub int_modie : ℕ
int_modie = 2 ^ 19

abbrev pub int_rxie : ℕ
int_rxie = 2 ^ 17

abbrev pub int_ivmif : ℕ
int_ivmif = 2 ^ 15

abbrev pub int_wakif : ℕ
int_wakif = 2 ^ 14

abbrev pub int_cerrif : ℕ
int_cerrif = 2 ^ 13

abbrev pub int_serrif : ℕ
int_serrif = 2 ^ 12

abbrev pub int_rxovif : ℕ
int_rxovif = 2 ^ 11

abbrev pub int_txatif : ℕ
int_txatif = 2 ^ 10

abbrev pub int_spicrcif : ℕ
int_spicrcif = 2 ^ 9

abbrev pub int_eccif : ℕ
int_eccif = 2 ^ 8

abbrev pub int_tefif : ℕ
int_tefif = 2 ^ 4

abbrev pub int_modif : ℕ
int_modif = 2 ^ 3

abbrev pub int_rxif : ℕ
int_rxif = 2 ^ 1

abbrev pub int_if_clearable_mask : ℕ
int_if_clearable_mask =
    bit_or int_ivmif (bit_or int_wakif (bit_or int_cerrif (bit_or int_serrif int_modif)))

abbrev pub rxovif : ℕ
rxovif = 0x28

abbrev pub trec : ℕ
trec = 0x34

abbrev pub trec_txbo : ℕ
trec_txbo = 2 ^ 21

abbrev pub trec_txbp : ℕ
trec_txbp = 2 ^ 20

abbrev pub trec_rxbp : ℕ
trec_rxbp = 2 ^ 19

abbrev pub trec_txwarn : ℕ
trec_txwarn = 2 ^ 18

abbrev pub trec_rxwarn : ℕ
trec_rxwarn = 2 ^ 17

abbrev pub trec_tec_mask : Field
trec_tec_mask = record { hi = 15; lo = 8 }

abbrev pub trec_rec_mask : Field
trec_rec_mask = record { hi = 7; lo = 0 }

abbrev pub bdiag1 : ℕ
bdiag1 = 0x3c

abbrev pub bdiag1_dcrcerr : ℕ
bdiag1_dcrcerr = 2 ^ 29

abbrev pub bdiag1_dstuferr : ℕ
bdiag1_dstuferr = 2 ^ 28

abbrev pub bdiag1_dformerr : ℕ
bdiag1_dformerr = 2 ^ 27

abbrev pub bdiag1_dbit1err : ℕ
bdiag1_dbit1err = 2 ^ 25

abbrev pub bdiag1_dbit0err : ℕ
bdiag1_dbit0err = 2 ^ 24

abbrev pub bdiag1_ncrcerr : ℕ
bdiag1_ncrcerr = 2 ^ 21

abbrev pub bdiag1_nstuferr : ℕ
bdiag1_nstuferr = 2 ^ 20

abbrev pub bdiag1_nformerr : ℕ
bdiag1_nformerr = 2 ^ 19

abbrev pub bdiag1_nackerr : ℕ
bdiag1_nackerr = 2 ^ 18

abbrev pub bdiag1_nbit1err : ℕ
bdiag1_nbit1err = 2 ^ 17

abbrev pub bdiag1_nbit0err : ℕ
bdiag1_nbit0err = 2 ^ 16

abbrev pub tefcon : ℕ
tefcon = 0x40

abbrev pub tefcon_fsize_mask : Field
tefcon_fsize_mask = record { hi = 28; lo = 24 }

abbrev pub tefcon_uinc : ℕ
tefcon_uinc = 2 ^ 8

abbrev pub tefcon_teftsen : ℕ
tefcon_teftsen = 2 ^ 5

abbrev pub tefcon_tefovie : ℕ
tefcon_tefovie = 2 ^ 3

abbrev pub tefcon_tefneie : ℕ
tefcon_tefneie = 2 ^ 0

abbrev pub tefsta : ℕ
tefsta = 0x44

abbrev pub tefsta_tefovif : ℕ
tefsta_tefovif = 2 ^ 3

abbrev pub tefua : ℕ
tefua = 0x48

abbrev pub fifocon : ℕ → ℕ
fifocon x = 0x50 + 0xc * x

abbrev pub fifocon_plsize_mask : Field
fifocon_plsize_mask = record { hi = 31; lo = 29 }

abbrev pub fifocon_plsize_8 : ℕ
fifocon_plsize_8 = 0

abbrev pub fifocon_plsize_64 : ℕ
fifocon_plsize_64 = 7

abbrev pub fifocon_fsize_mask : Field
fifocon_fsize_mask = record { hi = 28; lo = 24 }

abbrev pub fifocon_txat_mask : Field
fifocon_txat_mask = record { hi = 22; lo = 21 }

abbrev pub fifocon_txat_one_shot : ℕ
fifocon_txat_one_shot = 0

abbrev pub fifocon_txat_unlimited : ℕ
fifocon_txat_unlimited = 3

abbrev pub fifocon_txreq : ℕ
fifocon_txreq = 2 ^ 9

abbrev pub fifocon_uinc : ℕ
fifocon_uinc = 2 ^ 8

abbrev pub fifocon_txen : ℕ
fifocon_txen = 2 ^ 7

abbrev pub fifocon_rxtsen : ℕ
fifocon_rxtsen = 2 ^ 5

abbrev pub fifocon_txatie : ℕ
fifocon_txatie = 2 ^ 4

abbrev pub fifocon_rxovie : ℕ
fifocon_rxovie = 2 ^ 3

abbrev pub fifocon_tfnrfnie : ℕ
fifocon_tfnrfnie = 2 ^ 0

abbrev pub fifosta : ℕ → ℕ
fifosta x = 0x54 + 0xc * x

abbrev pub fifosta_fifoci_mask : Field
fifosta_fifoci_mask = record { hi = 12; lo = 8 }

abbrev pub fifosta_rxovif : ℕ
fifosta_rxovif = 2 ^ 3

abbrev pub fifoua : ℕ → ℕ
fifoua x = 0x58 + 0xc * x

abbrev pub fltcon : ℕ → ℕ
fltcon x = 0x1d0 + 0x4 * x

abbrev pub fltcon_flten : ℕ → ℕ
fltcon_flten x = 2 ^ 7 * 2 ^ (8 * (x % 4))

abbrev pub fltcon_flt_mask : ℕ → ℕ
fltcon_flt_mask x = 0xff * 2 ^ (8 * (x % 4))

abbrev pub fltcon_fbp : ℕ → ℕ → ℕ
fltcon_fbp x fifo = fifo * 2 ^ (8 * (x % 4))

abbrev pub ram_start : ℕ
ram_start = 0x400

abbrev pub ram_size : ℕ
ram_size = 2048

abbrev pub obj_id_eid_mask : Field
obj_id_eid_mask = record { hi = 28; lo = 11 }

abbrev pub obj_id_sid_mask : Field
obj_id_sid_mask = record { hi = 10; lo = 0 }

abbrev pub obj_flags_seq_mcp2518fd_mask : Field
obj_flags_seq_mcp2518fd_mask = record { hi = 31; lo = 9 }

abbrev pub obj_flags_seq_mcp2517fd_mask : Field
obj_flags_seq_mcp2517fd_mask = record { hi = 15; lo = 9 }

abbrev pub obj_flags_esi : ℕ
obj_flags_esi = 2 ^ 8

abbrev pub obj_flags_fdf : ℕ
obj_flags_fdf = 2 ^ 7

abbrev pub obj_flags_brs : ℕ
obj_flags_brs = 2 ^ 6

abbrev pub obj_flags_rtr : ℕ
obj_flags_rtr = 2 ^ 5

abbrev pub obj_flags_ide : ℕ
obj_flags_ide = 2 ^ 4

abbrev pub obj_flags_dlc : Field
obj_flags_dlc = record { hi = 3; lo = 0 }

abbrev pub frame_eff_sid_mask : Field
frame_eff_sid_mask = record { hi = 28; lo = 18 }

abbrev pub frame_eff_eid_mask : Field
frame_eff_eid_mask = record { hi = 17; lo = 0 }

abbrev pub osc : ℕ
osc = 0xe00

abbrev pub osc_oscrdy : ℕ
osc_oscrdy = 2 ^ 10

abbrev pub osc_pllrdy : ℕ
osc_pllrdy = 2 ^ 8

abbrev pub osc_clkodiv_10 : ℕ
osc_clkodiv_10 = 3

abbrev pub osc_clkodiv_mask : Field
osc_clkodiv_mask = record { hi = 6; lo = 5 }

abbrev pub osc_lpmen : ℕ
osc_lpmen = 2 ^ 3

abbrev pub iocon : ℕ
iocon = 0xe04

abbrev pub iocon_pm1 : ℕ
iocon_pm1 = 2 ^ 25

abbrev pub iocon_pm0 : ℕ
iocon_pm0 = 2 ^ 24

abbrev pub iocon_tris1 : ℕ
iocon_tris1 = 2 ^ 1

abbrev pub iocon_tris0 : ℕ
iocon_tris0 = 2 ^ 0

abbrev pub crc : ℕ
crc = 0xe08

abbrev pub crc_ferrie : ℕ
crc_ferrie = 2 ^ 25

abbrev pub crc_crcerrie : ℕ
crc_crcerrie = 2 ^ 24

abbrev pub crc_if_mask : Field
crc_if_mask = record { hi = 17; lo = 16 }

abbrev pub ecccon : ℕ
ecccon = 0xe0c

abbrev pub ecccon_dedie : ℕ
ecccon_dedie = 2 ^ 2

abbrev pub ecccon_secie : ℕ
ecccon_secie = 2 ^ 1

abbrev pub ecccon_eccen : ℕ
ecccon_eccen = 2 ^ 0

abbrev pub eccstat : ℕ
eccstat = 0xe10

abbrev pub eccstat_erraddr_mask : Field
eccstat_erraddr_mask = record { hi = 27; lo = 16 }

abbrev pub eccstat_if_mask : Field
eccstat_if_mask = record { hi = 2; lo = 1 }

abbrev pub eccstat_dedif : ℕ
eccstat_dedif = 2 ^ 2

abbrev pub eccstat_secif : ℕ
eccstat_secif = 2 ^ 1

abbrev pub devid : ℕ
devid = 0xe14

abbrev pub rx_obj_num_max : ℕ
rx_obj_num_max = 32

abbrev pub tx_obj_num_can : ℕ
tx_obj_num_can = 8

abbrev pub tx_obj_num_canfd : ℕ
tx_obj_num_canfd = 4

abbrev pub tx_fifo : ℕ
tx_fifo = 1

abbrev pub rx_fifo : ℕ → ℕ
rx_fifo x = tx_fifo + 1 + x

abbrev pub spi_instruction_reset : ℕ
spi_instruction_reset = 0x0000

abbrev pub spi_instruction_write : ℕ
spi_instruction_write = 0x2000

abbrev pub spi_instruction_read : ℕ
spi_instruction_read = 0x3000

abbrev pub spi_instruction_write_crc : ℕ
spi_instruction_write_crc = 0xa000

abbrev pub spi_instruction_read_crc : ℕ
spi_instruction_read_crc = 0xb000

abbrev pub softreset_retries_max : ℕ
softreset_retries_max = 3

abbrev pub read_crc_retries_max : ℕ
read_crc_retries_max = 3

abbrev pub ecc_cnt_max : ℕ
ecc_cnt_max = 2
