-- ===== src/Common/Bits.antt =====
-- The bits of a word, and laws of `&` and `|` at variables.
mod Digits
mod Member
mod Mask
mod Table
mod Shifts
pub use Member.*
pub use Mask.*
pub use Table.{bit_and_high, same_below, same_below_both}
unfoldable pub use Table.{holds_below}
pub use Shifts.*
