-- ===== src/Mcp251xfd.antt =====
-- The driver in meta-tibbo/recipes-kernel/linux/linux-sp/mcp251xfd-backport/mcp251xfd.
pub mod Regs
pub mod State
pub mod Monad
pub mod Post
pub mod Does
pub mod Ring
pub mod Spi
pub mod Setup
pub mod Mode
pub mod Reset
pub mod Configure
pub mod Chip
pub mod CanAbi
pub mod Tef
pub mod Rx
pub mod Tx
pub mod Errors
pub mod Irq
pub mod Flow
pub mod Device
pub mod Regmap
pub mod Maps
mod Tests
