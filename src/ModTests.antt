-- ===== src/ModTests.antt =====
-- The kernel modules of recipes-kernel/mod-tests that test GPIO interrupts: what they do with pins,
-- interrupts and their static variables.
pub mod Kernel
pub mod Owned
pub mod Ends
pub mod Gpio
pub mod Premux
pub mod Latency
mod Tests
