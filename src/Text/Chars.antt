-- ===== src/Text/Chars.antt =====
-- Characters, their classes, and equality of texts (`core::char`, `str::eq`).
use Prim.Native.Char.{code}
use Prim.Native.Nat.{ℕ, ◌+◌, ◌-◌}
use Prim.Native.String.{String}
use mathlib.Core.Bool.{Bool, true, false, ◌&&◌, ◌||◌}
use mathlib.Core.List.{List, [], ◌∷◌, map}
use mathlib.Core.Logic.{◌↔◌}
use mathlib.Core.Path.{◌≡◌}
use native.Mathlib.Omega.{arith}
use proxy_watch.Prelude.{leb, ltb, ◌==◌, if◌then◌else◌, all}

abbrev pub Text : Type 0
Text = List ℕ

-- A literal of the source as its code points.
abbrev pub lit : String → Text
lit String.[] = []
lit (String.◌∷◌ c s) = code c ∷ lit s

abbrev pub between : ℕ → ℕ → ℕ → Bool
between lo hi c = leb lo c && leb c hi

-- `u8::is_ascii_digit`
abbrev pub is_digit : ℕ → Bool
is_digit c = between 48 57 c

-- `char::is_ascii_whitespace`: space, tab, line feed, form feed, carriage return.
abbrev pub is_ascii_whitespace : ℕ → Bool
is_ascii_whitespace c = c == 32 || c == 9 || c == 10 || c == 12 || c == 13

-- `char::is_whitespace`: the code points with the property White_Space.
unfoldable pub is_whitespace : ℕ → Bool
is_whitespace c =
    between 9 13 c
    || c == 32
    || c == 0x85
    || c == 0xa0
    || c == 0x1680
    || between 0x2000 0x200a c
    || c == 0x2028
    || c == 0x2029
    || c == 0x202f
    || c == 0x205f
    || c == 0x3000

-- `char::is_control`: the general category Cc.
abbrev pub is_control : ℕ → Bool
is_control c = ltb c 32 || between 127 159 c

-- `char::to_ascii_lowercase`, `char::to_ascii_uppercase`
unfoldable pub lower_char : ℕ → ℕ
lower_char c = if between b'A' b'Z' c then c + 32 else c

unfoldable pub upper_char : ℕ → ℕ
upper_char c = if between b'a' b'z' c then c - 32 else c

-- `str::to_ascii_lowercase`, `str::to_ascii_uppercase`, `str::is_ascii`
abbrev pub lower : Text → Text
lower = map lower_char

abbrev pub upper : Text → Text
upper = map upper_char

abbrev pub is_ascii : Text → Bool
is_ascii = all (λ c. ltb c 128)

unfoldable pub text_eq : Text → Text → Bool
text_eq [] [] = true
text_eq (x ∷ xs) (y ∷ ys) = x == y && text_eq xs ys
text_eq _ _ = false

-- `str::eq_ignore_ascii_case`
abbrev pub eq_ignore_case : Text → Text → Bool
eq_ignore_case a b = text_eq (lower a) (lower b)

pub text_eq_iff : (a b : Text) → (text_eq a b ≡ true) ↔ (a ≡ b)
unfolding text_eq
text_eq_iff (x ∷ a) (y ∷ b) = ground (arith, text_eq_iff a b)
text_eq_iff _ _ = ground arith
