-- ===== src/Prelude/Text.antt =====
-- Python's `str` operations on the native texts: `startswith`, `partition`, `in`, concatenation, and
-- decimal numbers.
mod Defs
mod Laws
mod Decimal
unfoldable pub use Defs.*
pub use Laws.*
unfoldable pub use Decimal.*
