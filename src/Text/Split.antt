-- ===== src/Text/Split.antt =====
-- Splitting a text at characters and at substrings.
use Prim.Native.Nat.{ℕ}
use mathlib.Core.Bool.{Bool, true, false}
use mathlib.Core.List.{List, [], ◌∷◌}
use mathlib.Core.Option.{Option, none, some}
use proxy_watch.Prelude.{◌==◌, any, map_option}
use proxy_watch.Text.Chars.{Text}

-- The text before the first character of a class, and the text from that character on:
-- `str::find(class)` followed by a split at the index.
unfoldable pub split_at : (ℕ → Bool) → Text → Option (Text × Text)
split_at p [] = none
split_at p (c ∷ cs) = elim (p c) [
  | true ↦ some ([], c ∷ cs)
  | false ↦ map_option (λ r. (c ∷ r.0, r.1)) (split_at p cs)
]

-- `str::split_once(char)`
unfoldable pub split_once : ℕ → Text → Option (Text × Text)
split_once d [] = none
split_once d (c ∷ cs) = elim (c == d) [
  | true ↦ some ([], cs)
  | false ↦ map_option (λ r. (c ∷ r.0, r.1)) (split_once d cs)
]

abbrev pub has : ℕ → Text → Bool
has c t = any (λ x. x == c) t

-- `str::rsplit_once(char)`: at the last occurrence.
unfoldable pub rsplit_once : ℕ → Text → Option (Text × Text)
rsplit_once d [] = none
rsplit_once d (c ∷ cs) = elim (rsplit_once d cs) [
  | some r ↦ some (c ∷ r.0, r.1)
  | none ↦ elim (c == d) [ true ↦ some ([], cs) | false ↦ none ]
]

-- One more character on the first piece of a split.
abbrev pub onto_first : ℕ → List Text → List Text
onto_first c [] = (c ∷ []) ∷ []
onto_first c (p ∷ ps) = (c ∷ p) ∷ ps

-- `str::split(class)`: one piece more than there are separators.
unfoldable pub split : (ℕ → Bool) → Text → List Text
split p [] = [] ∷ []
split p (c ∷ cs) = elim (p c) [ true ↦ [] ∷ split p cs | false ↦ onto_first c (split p cs) ]

-- `str::split_ascii_whitespace`: the pieces that are not empty.
unfoldable pub non_empty : List Text → List Text
non_empty [] = []
non_empty ([] ∷ ps) = non_empty ps
non_empty ((c ∷ cs) ∷ ps) = (c ∷ cs) ∷ non_empty ps
