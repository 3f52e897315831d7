-- ===== src/Devices.antt =====
-- What the bus of source/mmu.cpp does in bare mode and in Sv39 mode, the UART's registers, and the
-- fields of a page table entry.
pub mod Bare
pub mod Paged
pub mod Sv39
pub mod Serial
