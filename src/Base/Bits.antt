-- ===== src/Base/Bits.antt =====
-- Binary digits of a word, and what `&`, `|` and `^` do to them, at every width.
mod Digits
mod Masks
mod Complement
pub use Digits.*
pub use Masks.*
pub use Complement.*
