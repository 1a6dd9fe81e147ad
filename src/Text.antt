-- ===== src/Text.antt =====
-- Rust's `str` as the program uses it: a text is the list of its code points, so an index of the
-- source into a text is here the pair of the texts before and after it.
mod Chars
mod Split
mod Affix
mod Lines
pub mod Number
pub mod Address
pub mod Utf8
pub mod Lossy
unfoldable pub use Chars.*
unfoldable pub use Split.*
unfoldable pub use Affix.*
unfoldable pub use Lines.*
use Address.{parse_ipv4, parse_ipv6, parse_ip, show_ipv6}
use Number.{parse_uint, show}
use Utf8.{encode, from_utf8}

-- Named on an `unfolding` line, this opens every operation on texts: a test needs most of them.
unfoldable pub text_ops : Unit {0}
unfolding is_whitespace lower_char upper_char text_eq split_at split_once rsplit_once split
    non_empty strip_prefix strip_suffix trim_start trim_end find_text lines parse_ipv4 parse_ipv6
    parse_ip show_ipv6 parse_uint show encode from_utf8
text_ops = tt
