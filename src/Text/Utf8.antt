-- ===== src/Text/Utf8.antt =====
-- UTF-8: the bytes of a text, and `String::from_utf8`.
use Prim.Native.Nat.{ℕ, ◌+◌, ◌-◌, ◌*◌, ◌/◌, ◌%◌}
use mathlib.Core.Bool.{Bool, ◌&&◌, ◌||◌}
use mathlib.Core.List.{List, [], ◌∷◌, ◌++◌}
use mathlib.Core.Option.{Option, none, some}
use proxy_watch.Prelude.{ltb, if◌then◌else◌, map_option}
use proxy_watch.Text.Chars.{Text, between}

-- A byte after the first of a character.
abbrev tail_byte : ℕ → ℕ
tail_byte n = 128 + n % 64

unfoldable pub encode_char : ℕ → List ℕ
encode_char c =
    if ltb c 0x80
    then c ∷ []
    else if ltb c 0x800
    then (192 + c / 64) ∷ tail_byte c ∷ []
    else if ltb c 0x10000
    then (224 + c / 4096) ∷ tail_byte (c / 64) ∷ tail_byte c ∷ []
    else (240 + c / 262144) ∷ tail_byte (c / 4096) ∷ tail_byte (c / 64) ∷ tail_byte c ∷ []

-- `str::as_bytes`
unfoldable pub encode : Text → List ℕ
unfolding encode_char
encode [] = []
encode (c ∷ cs) = encode_char c ++ encode cs

abbrev is_tail : ℕ → Bool
is_tail b = between 128 191 b

-- The code point of a sequence of the given first byte, or `none` where it is no shortest form,
-- a surrogate, or past the last code point.
abbrev two : ℕ → ℕ → Option ℕ
two a b = if between 194 223 a && is_tail b then some ((a - 192) * 64 + (b - 128)) else none

abbrev three : ℕ → ℕ → ℕ → Option ℕ
three a b c =
    let n = ((a - 224) * 64 + (b - 128)) * 64 + (c - 128) in
    if between 224 239 a
      && is_tail b
      && is_tail c
      && (between 0x800 0xd7ff n || between 0xe000 0xffff n)
    then some n
    else none

abbrev four : ℕ → ℕ → ℕ → ℕ → Option ℕ
four a b c d =
    let n = (((a - 240) * 64 + (b - 128)) * 64 + (c - 128)) * 64 + (d - 128) in
    if between 240 244 a && is_tail b && is_tail c && is_tail d && between 0x10000 0x10ffff n
    then some n
    else none

abbrev onto : Option ℕ → Option Text → Option Text
onto none rest = none
onto (some c) rest = map_option (λ t. c ∷ t) rest

-- `String::from_utf8`: `none` where the bytes are not UTF-8.
unfoldable pub from_utf8 : List ℕ → Option Text
from_utf8 [] = some []
from_utf8 (a ∷ []) = if ltb a 128 then some (a ∷ []) else none
from_utf8 (a ∷ b ∷ []) =
    if ltb a 128 then onto (some a) (from_utf8 (b ∷ [])) else onto (two a b) (some [])
from_utf8 (a ∷ b ∷ c ∷ []) =
    if ltb a 128
    then onto (some a) (from_utf8 (b ∷ c ∷ []))
    else if ltb a 224
    then onto (two a b) (from_utf8 (c ∷ []))
    else onto (three a b c) (some [])
from_utf8 (a ∷ b ∷ c ∷ d ∷ r) =
    let one = from_utf8 (b ∷ c ∷ d ∷ r) in
    let after_two = from_utf8 (c ∷ d ∷ r) in
    let after_three = from_utf8 (d ∷ r) in
    let after_four = from_utf8 r in
    if ltb a 128
    then onto (some a) one
    else if ltb a 224
    then onto (two a b) after_two
    else if ltb a 240
    then onto (three a b c) after_three
    else onto (four a b c d) after_four
