-- ===== src/Common/Bits.antt =====
-- Laws of `&`, `|` and `^` on numbers: masks as remainders, disjoint fields as sums, single bits.
mod Step
mod Fields
mod Single
mod Xor
pub use Step.*
pub use Fields.*
pub use Xor.*
unfoldable pub use Single.*
