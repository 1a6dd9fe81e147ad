-- ===== src/Kde/Escape.antt =====
-- src/sys/linux/kde.rs: KConfig's escapes. The loop over the characters is a machine with a state.
use proxy_watch.Prelude.{
  ℕ, Option, none, some, List, [], ◌∷◌, ◌++◌, ◌+◌, ◌*◌, ◌||◌, ◌==◌, if◌then◌else◌, map_option,
}
use proxy_watch.Text.{Text, has}
use proxy_watch.Text.Address.{hex_digit}
use proxy_watch.Text.Lossy.{from_utf8_lossy}
use proxy_watch.Text.Utf8.{encode_char}

-- Outside an escape, behind a backslash, behind `\x`, and behind its first digit.
pub data Escape : Type 0 where
  plain backslash hex : Escape
  hex_after : ℕ → Escape

hex_byte : Option ℕ → Option ℕ → ℕ
hex_byte (some hi) (some lo) = hi * 16 + lo
hex_byte _ _ = b'x'

-- The bytes that a character behind a backslash gives, or `none` for an unknown escape.
escaped : ℕ → Option (List ℕ)
escaped c =
    if c == b's'
    then some (b' ' ∷ [])
    else if c == b't'
    then some (b'\t' ∷ [])
    else if c == b'n'
    then some (b'\n' ∷ [])
    else if c == b'r'
    then some (b'\r' ∷ [])
    else if c == b'\\'
    then some (b'\\' ∷ [])
    else if c == b';' || c == b','
    then some (b'\\' ∷ c ∷ [])
    else none

-- One character: the bytes that it gives, and the next state.
read : Escape → ℕ → Option (List ℕ × Escape)
unfolding escaped hex_byte
read plain c = if c == b'\\' then some ([], backslash) else some (encode_char c, plain)
read backslash c =
    if c == b'x' then some ([], hex) else map_option (λ bytes. (bytes, plain)) (escaped c)
read hex c = some ([], hex_after c)
read (hex_after d) c = some (hex_byte (hex_digit d) (hex_digit c) ∷ [], plain)

-- An escape that the end of the text cuts off.
cut_off : Escape → List ℕ
cut_off plain = []
cut_off backslash = b'\\' ∷ []
cut_off hex = b'x' ∷ []
cut_off (hex_after d) = b'x' ∷ []

unfoldable pub unescape : Escape → Text → Option (List ℕ)
unfolding read cut_off
unescape e [] = some (cut_off e)
unescape e (c ∷ cs) = elim (read e c) [
  | none ↦ none
  | some (bytes, next) ↦ map_option (λ rest. bytes ++ rest) (unescape next cs)
]

unfoldable pub printable_to_string : Text → Text
unfolding unescape
printable_to_string raw =
    if has b'\\' raw
    then elim (unescape plain raw) [ none ↦ raw | some bytes ↦ from_utf8_lossy bytes ]
    else raw
