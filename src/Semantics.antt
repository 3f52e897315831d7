-- ===== src/Semantics.antt =====
-- What instructions do, against independent descriptions.
pub mod Registers
pub mod Jumps
pub mod Division
pub mod Signed
pub mod Memory
pub mod Csrs
pub mod Shifts
