-- ===== src/Util/Glob.antt =====
-- src/util.rs: `glob_match`.
pub mod Pieces
mod Splits
pub mod Reference
use proxy_watch.Prelude.{Bool, false, Option, none, some, List, [], ◌∷◌, ◌==◌, unwrap_or}
use proxy_watch.Text.{
  Text, text_eq, split_once, rsplit_once, split, strip_prefix, ends_with, find_text,
}

-- The loop over the parts between the first star and the last: each part is found at its first
-- occurrence in what is left of the text.
unfoldable pub glob_parts : List Text → Text → Option Text
glob_parts [] rest = some rest
glob_parts (part ∷ parts) rest = elim (find_text part rest) [
  | none ↦ none
  | some r ↦ glob_parts parts r.1
]

glob_tail : Text → Text → Text → Bool
unfolding glob_parts
glob_tail middle last rest = elim (glob_parts (split (λ c. c == b'*') middle) rest) [
  | none ↦ false
  | some r ↦ ends_with last r
]

glob_star : Text → Text → Text → Bool
unfolding glob_tail
glob_star first after_first text =
    let halves = unwrap_or (rsplit_once b'*' after_first) ([], after_first) in
    elim (strip_prefix first text) [ none ↦ false | some rest ↦ glob_tail halves.0 halves.1 rest ]

unfoldable pub glob_match : Text → Text → Bool
unfolding glob_star
glob_match pattern text = elim (split_once b'*' pattern) [
  | none ↦ text_eq pattern text
  | some r ↦ glob_star r.0 r.1 text
]
