-- ===== src/Text.antt =====
-- Texts and byte strings, with the operations of Python that the scripts use.
mod Strings
mod Split
mod Order
mod Repeats
mod Decimal
mod Lines
mod Replace
mod Quote
unfoldable pub use Strings.*
unfoldable pub use Split.*
unfoldable pub use Order.*
unfoldable pub use Repeats.*
unfoldable pub use Decimal.*
unfoldable pub use Lines.*
unfoldable pub use Replace.*
unfoldable pub use Quote.*
