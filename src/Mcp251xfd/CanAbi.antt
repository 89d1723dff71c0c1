-- ===== src/Mcp251xfd/CanAbi.antt =====
-- The constants of the kernel's CAN interface that the driver names (linux/can.h, linux/can/error.h,
-- linux/can/netlink.h), under their names without CAN_.
use yocto_layers.Common.{ℕ}

abbrev pub eff_flag : ℕ
eff_flag = 0x8000_0000

abbrev pub rtr_flag : ℕ
rtr_flag = 0x4000_0000

abbrev pub canfd_brs : ℕ
canfd_brs = 0x01

abbrev pub canfd_esi : ℕ
canfd_esi = 0x02

abbrev pub max_dlen : ℕ
max_dlen = 8

abbrev pub err_crtl : ℕ
err_crtl = 0x4

abbrev pub err_crtl_rx_overflow : ℕ
err_crtl_rx_overflow = 0x01

abbrev pub err_prot : ℕ
err_prot = 0x8

abbrev pub err_ack : ℕ
err_ack = 0x20

abbrev pub err_buserror : ℕ
err_buserror = 0x80

abbrev pub err_prot_form : ℕ
err_prot_form = 0x02

abbrev pub err_prot_stuff : ℕ
err_prot_stuff = 0x04

abbrev pub err_prot_bit0 : ℕ
err_prot_bit0 = 0x08

abbrev pub err_prot_bit1 : ℕ
err_prot_bit1 = 0x10

abbrev pub err_prot_tx : ℕ
err_prot_tx = 0x80

abbrev pub err_prot_loc_crc_seq : ℕ
err_prot_loc_crc_seq = 0x08
