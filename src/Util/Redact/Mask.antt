-- ===== src/Util/Redact/Mask.antt =====
-- `redact_userinfo`: what stands between a user name's colon and an at-sign becomes `***`.
use proxy_watch.Prelude.{
  ℕ, zero, suc, ◌+◌, ◌-◌, Bool, true, false, not, ◌&&◌, ◌||◌, Option, none, some, List, [], ◌∷◌,
  ◌++◌, ltb, leb, ◌==◌, if◌then◌else◌, any, is_some, unwrap_or,
}
use proxy_watch.Text.{Text, lit, has, contains_text}

abbrev pub mask : Text
mask = lit "***"

unfoldable pub take_chars : ℕ → Text → Text
take_chars zero t = []
take_chars (suc n) [] = []
take_chars (suc n) (c ∷ t) = c ∷ take_chars n t

unfoldable pub drop_chars : ℕ → Text → Text
drop_chars zero t = t
drop_chars (suc n) [] = []
drop_chars (suc n) (c ∷ t) = drop_chars n t

-- `&input[from..upto]`
unfoldable pub slice : ℕ → ℕ → Text → Text
unfolding take_chars drop_chars
slice from upto t = take_chars (upto - from) (drop_chars from t)

-- The indices at which the rest of the text passes a test, from index `i` on.
unfoldable pub indices : (Text → Bool) → ℕ → Text → List ℕ
indices p i [] = []
indices p i (c ∷ t) = let rest = indices p (i + 1) t in if p (c ∷ t) then i ∷ rest else rest

abbrev at_sign : Text → Bool
at_sign [] = false
at_sign (c ∷ t) = c == b'@'

abbrev boundary : Text → Bool
boundary [] = false
boundary (c ∷ t) = c == b' ' || c == b'\t' || c == b'\n'

abbrev colon : Text → Bool
colon [] = false
colon (c ∷ t) = c == b':'

abbrev scheme_mark : Text → Bool
scheme_mark (a ∷ b ∷ c ∷ t) = a == b':' && b == b'/' && c == b'/'
scheme_mark _ = false

-- `%3a` or `%3A`
abbrev pub encoded_colon : Text → Bool
encoded_colon (a ∷ b ∷ c ∷ t) = a == b'%' && b == b'3' && (c == b'a' || c == b'A')
encoded_colon _ = false

-- `list.get(list.partition_point(|x| x < from))` on an ascending list.
unfoldable pub first_from : ℕ → List ℕ → Option ℕ
first_from from [] = none
first_from from (x ∷ xs) = elim (ltb x from) [ true ↦ first_from from xs | false ↦ some x ]

-- `list[list.partition_point(|x| x < upto) - 1]`, if there is one.
last_below : ℕ → List ℕ → Option ℕ
last_below upto [] = none
last_below upto (x ∷ xs) = elim (ltb x upto) [
  | true ↦ some (unwrap_or (last_below upto xs) x)
  | false ↦ none
]

-- The five lists that the pass over the bytes collects.
pub record Marks : Type 0 where
  pub ats : List ℕ
  pub boundaries : List ℕ
  pub colons : List ℕ
  pub encoded : List ℕ
  pub schemes : List ℕ

marks : Text → Marks
unfolding indices
marks t = record {
  ats = indices at_sign 0 t;
  boundaries = indices boundary 0 t;
  colons = indices colon 0 t;
  encoded = indices encoded_colon 0 t;
  schemes = indices scheme_mark 0 t;
}

abbrev keep_if : (ℕ → Bool) → Option ℕ → Option ℕ
keep_if p none = none
keep_if p (some n) = if p n then some n else none

-- Where the earlier of two delimiters ends: a colon is one character, its escape three.
abbrev pub earlier_end : Option ℕ → Option ℕ → Option ℕ
earlier_end (some l) (some e) = some (if leb l e then l + 1 else e + 3)
earlier_end (some l) none = some (l + 1)
earlier_end none (some e) = some (e + 3)
earlier_end none none = none

first_delimiter_end : Marks → ℕ → ℕ → Option ℕ
unfolding first_from
first_delimiter_end m from upto =
    earlier_end (keep_if (λ c. ltb c upto) (first_from from m.colons))
      (keep_if (λ e. leb (e + 3) upto) (first_from from m.encoded))

-- An at-sign with another after it, and nothing between them that ends a userinfo, is skipped.
joined : Text → ℕ → List ℕ → Bool
unfolding slice
joined input at [] = false
joined input at (next ∷ _) =
    let between = slice (at + 1) next input in
    not (any (λ b. b == b' ' || b == b'\t' || b == b'\n' || b == b'\r') between)
    && not (contains_text (lit "//") between)

segment_start : Marks → ℕ → ℕ → ℕ
unfolding first_delimiter_end last_below first_from
segment_start m copied at =
    let after_marker : ℕ = elim (last_below at m.boundaries) [ none ↦ 0 | some b ↦ b + 1 ] in
    let base = if leb copied after_marker then after_marker else copied in
    elim (first_from base m.schemes) [
      | none ↦ base
      | some s ↦
          if leb (s + 3) at && not (is_some (first_delimiter_end m base s)) then s + 3 else base
    ]

-- The loop over the at-signs, with the output so far and how much of the input is in it.
unfoldable pub redact_from : Text → Marks → Text → ℕ → List ℕ → Text
unfolding drop_chars slice joined segment_start first_delimiter_end
redact_from input m out copied [] = out ++ drop_chars copied input
redact_from input m out copied (at ∷ ats) =
    elim (if joined input at ats
      then none
      else first_delimiter_end m (segment_start m copied at) at) [
        | none ↦ redact_from input m out copied ats
        | some end ↦ redact_from input m (out ++ slice copied end input ++ mask) at ats
      ]

unfoldable pub redact_userinfo : Text → Text
unfolding marks redact_from
redact_userinfo input =
    if has b'@' input then redact_from input (marks input) [] 0 (marks input).ats else input
