-- ===== src/Bypass/Parse.antt =====
-- `HostPattern::parse_in`. The function is a chain of steps, each of which may return at once: a
-- step is a `Flow`, and its children hold the steps in the source's order.
mod Flow
mod Guards
mod Body
pub mod Entry
unfoldable pub use Entry.{parse_in}
unfoldable pub use Guards.{
  token_entry, is_rejecting_text, guard_text, guard_slash, folded_cidr, read_cidr,
}
unfoldable pub use Body.{guard_host, guard_labels, guard_suffix, build_star, build_bare}
