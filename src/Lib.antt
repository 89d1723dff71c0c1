-- ===== src/Lib.antt =====
-- A model of the CAN FD controller driver mcp251xfd (MCP2517FD, MCP2518FD) of
-- meta-tibbo/recipes-kernel/linux/linux-sp/mcp251xfd-backport/mcp251xfd, and of smaller programs of the
-- repository: the kernel modules that test interrupts and the font demonstration testhb.c.
--
-- The driver talks to the chip over SPI by way of regmap. Opening the interface allocates the rings in
-- the chip's RAM, resets and configures the chip and starts the interrupt thread. That thread reads
-- the pending interrupts and runs one handler for each; the TEF handler completes transmitted
-- frames, the RX handler hands received frames to the CAN stack, the others report errors.
-- The transmit routine runs beside the thread and shares the TX ring's head and tail with it.
--
-- Files, with the functions they model (mcp251xfd_ is left out of the names):
--   Common           shared names, list and bit lemmas (Common/Tests, Lists, Bits, Xor, Fields, Words,
--                    Digits)
--   Crc16            mcp251xfd-crc16.c; Reference is bitwise division, Division and Frames the proofs
--   Mcp251xfd/Regs   the registers and bits of mcp251xfd.h
--   Mcp251xfd/State  struct mcp251xfd_priv and its parts; the calls that leave the driver
--   Mcp251xfd/Monad  the driver's code as state passing with error codes
--   Mcp251xfd/Post   what a run guarantees of its results and of its errors
--   Mcp251xfd/Ring   get_tef_head to get_rx_linear_len of mcp251xfd.h
--   Mcp251xfd/Spi    the SPI commands and cmd_prepare_write_reg
--   Mcp251xfd/Setup  ring_alloc, ring_init, ring_free
--   Mcp251xfd/Mode, Reset, Configure, Chip   chip_set_mode to get_berr_counter of mcp251xfd-core.c
--   Mcp251xfd/Tef, Rx, Tx, Errors, Irq       the interrupt handlers, start_xmit and the thread
--   Mcp251xfd/Flow   the TX ring that start_xmit and handle_tefif share, as a bounded queue of frames,
--                      and the stack's queue that the one stops and the other wakes
--   Mcp251xfd/Does   code from one condition on the state to another, a lemma for each construct;
--                      Chip/Quiet the same for each function that only sets up the chip
--   Mcp251xfd/Device   power, chip detection, open and stop; Device/Register and Device/Probe:
--                      register, unregister, probe, remove; Device/Held what is held of the kernel
--   Mcp251xfd/Regmap   the reads and writes of mcp251xfd-regmap.c; Mcp251xfd/Maps its regmap_init
--   Mcp251xfd/Tests    a concrete device
--   ModTests         meta-tibbo/recipes-kernel/mod-tests: Gpio is dv-int.c and dv-git.c, Premux dv-irq-tst.c,
--                      Latency intltest_main.c and intltest_procfs.c; Kernel the calls they make, Owned
--                      what they hold of the kernel, Ends a run that comes to an end
--   Fonts            meta-tibbo/recipes-core/fonts/test-freetype/testhb.c: FB_pix, FB_glyph_get, draw_G
--
-- State and calls. A function of the driver takes the private data and the calls made so far and ends
-- with a result, with an errno, or with its fuel used up. What is not in the driver (the chip, regmap,
-- the kernel) is the record Env: the reply to a call may depend on every call before it.
-- Writes to priv are ordinary record updates, in the order of the source.
--
-- Resources. Device/Held counts from the calls what the driver has taken and not given back: clock,
-- power, uses of runtime power management, network device, interrupt, memory of the RX rings. A call
-- that fails takes nothing, but pm_runtime_get_sync counts a use all the same, as its documentation
-- says. Memory that the kernel frees with the device (devm_) is not counted. The calls of runtime power
-- management only count: the callbacks runtime_suspend and runtime_resume, which switch clock and power,
-- are steps of their own between the driver's other operations (Device/Lifetime).
--
-- Numbers. u8, u16 and unsigned int wrap where the C code cuts them. Ring counters are unsigned int
-- and run freely.
--
-- Fuel. The loop over a ring has 256 rounds: a length is a u8 that each round makes smaller. Retries
-- have the source's constants. The interrupt thread's two loops take their number of rounds from the
-- caller, since a chip may keep them busy for ever.
--
-- Not modelled: messages, the host's endianness, tables that only match devices or describe registers
-- to regmap, and memory barriers; in testhb.c the opening of the frame buffer and the loop over the
-- text. The other programs in C print, or hand all their work to a library: tpstfwm.c and fwtest.c, the
-- other font demonstrations, the examples of the documentation. mcp251xfd.orig is the driver before the patches, kept for comparison.
-- Beside these the repository holds recipes and settings.
pub mod Common
pub mod Crc16
pub mod Mcp251xfd
pub mod ModTests
pub mod Fonts
