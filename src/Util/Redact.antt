-- ===== src/Util/Redact.antt =====
-- src/util.rs: what is masked or withheld of a text before it is reported. The source's indices
-- into the bytes are here indices into the code points: every byte that it looks at is ASCII.
mod Mask
mod Shape
pub mod Sanitize
unfoldable pub use Mask.*
unfoldable pub use Shape.*
unfoldable pub use Sanitize.*
