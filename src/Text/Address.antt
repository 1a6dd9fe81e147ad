-- ===== src/Text/Address.antt =====
-- `core::net`: IP addresses as numbers, their text forms, and the tests that the program makes on
-- them. The reader follows the standard library's recursive-descent parser.
mod Read
mod Write
unfoldable pub use Read.*
unfoldable pub use Write.*
