-- ===== src/Text/Affix.antt =====
-- Prefixes, suffixes, trimming and substring search.
use Prim.Native.Nat.{ℕ}
use mathlib.Core.Bool.{Bool, true, false}
use mathlib.Core.List.{[], ◌∷◌, reverse}
use mathlib.Core.Option.{Option, none, some}
use proxy_watch.Prelude.{◌==◌, is_some, map_option, unwrap_or}
use proxy_watch.Text.Chars.{Text}

-- `str::strip_prefix(&str)`
unfoldable pub strip_prefix : Text → Text → Option Text
strip_prefix [] t = some t
strip_prefix (c ∷ p) [] = none
strip_prefix (c ∷ p) (x ∷ t) = elim (c == x) [ true ↦ strip_prefix p t | false ↦ none ]

-- `str::strip_suffix(&str)`
unfoldable pub strip_suffix : Text → Text → Option Text
unfolding strip_prefix
strip_suffix s t = map_option reverse (strip_prefix (reverse s) (reverse t))

abbrev pub starts_with : Text → Text → Bool
starts_with p t = is_some (strip_prefix p t)

abbrev pub ends_with : Text → Text → Bool
ends_with s t = is_some (strip_suffix s t)

-- One trailing occurrence taken off, or the text as it is.
abbrev pub without_suffix : Text → Text → Text
without_suffix s t = unwrap_or (strip_suffix s t) t

-- `str::trim_start_matches(class)`, `str::trim_end_matches(class)`, `str::trim_matches(class)`
unfoldable pub trim_start : (ℕ → Bool) → Text → Text
trim_start p [] = []
trim_start p (c ∷ cs) = elim (p c) [ true ↦ trim_start p cs | false ↦ c ∷ cs ]

unfoldable pub trim_end : (ℕ → Bool) → Text → Text
unfolding trim_start
trim_end p t = reverse (trim_start p (reverse t))

abbrev pub trim_with : (ℕ → Bool) → Text → Text
trim_with p t = trim_end p (trim_start p t)

-- `str::find(&str)` and the split around it: the text before the first occurrence of `s`, and the
-- text after it. `str::split_once(&str)` is the same split.
unfoldable pub find_text : Text → Text → Option (Text × Text)
unfolding strip_prefix
find_text s [] = map_option (λ r. ([], r)) (strip_prefix s [])
find_text s (c ∷ t) = elim (strip_prefix s (c ∷ t)) [
  | some r ↦ some ([], r)
  | none ↦ map_option (λ r. (c ∷ r.0, r.1)) (find_text s t)
]

abbrev pub contains_text : Text → Text → Bool
contains_text s t = is_some (find_text s t)
