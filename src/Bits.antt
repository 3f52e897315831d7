-- ===== src/Bits.antt =====
-- Laws of the bit operations at variables: the bit at a position, masks, disjoint fields, bounds.
mod Step
mod At
mod Mask
pub use Step.{bit_and_step, bit_or_step, bit_xor_step}
pub use At.*
pub use Mask.*
