-- ===== src/Isa.antt =====
-- The instruction table of source/cpu.cpp and the fields of an instruction word.
mod Fields
mod Shapes
pub mod System
pub mod Jumps
pub mod Memory
pub mod Immediate
pub mod Arithmetic
pub mod Multiply
pub mod Csrs
pub mod Atomic
mod Table
unfoldable pub use Fields.*
unfoldable pub use Shapes.*
unfoldable pub use Table.*
