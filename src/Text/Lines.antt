-- ===== src/Text/Lines.antt =====
-- `str::lines`.
use mathlib.Core.List.{List, [], ◌∷◌}
use proxy_watch.Prelude.{◌==◌, if◌then◌else◌, is_nil}
use proxy_watch.Text.Affix.{without_suffix}
use proxy_watch.Text.Chars.{Text, lit}
use proxy_watch.Text.Split.{split}

-- A return in front of a line feed goes with it, and there is no last line that is empty.
end_lines : List Text → List Text
end_lines [] = []
end_lines (t ∷ []) = if is_nil t then [] else t ∷ []
end_lines (t ∷ u ∷ rest) = without_suffix (lit "\r") t ∷ end_lines (u ∷ rest)

unfoldable pub lines : Text → List Text
unfolding end_lines split
lines t = end_lines (split (λ c. c == b'\n') t)
