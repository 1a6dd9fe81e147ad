-- ===== src/Util/Percent.antt =====
-- src/util.rs: `percent_decode`.
use proxy_watch.Prelude.{
  ℕ, ◌+◌, ◌*◌, Option, none, some, List, [], ◌∷◌, ◌==◌, if◌then◌else◌, unwrap_or, and_then,
  map_option,
}
use proxy_watch.Text.{Text, has}
use proxy_watch.Text.Address.{hex_digit}
use proxy_watch.Text.Utf8.{encode, from_utf8}

-- The byte that `%hi lo` stands for, or `none` where it is no escape.
abbrev pub escape_value : ℕ → ℕ → ℕ → Option ℕ
escape_value c hi lo =
    if c == b'%'
    then and_then (hex_digit hi) (λ h. map_option (λ l. h * 16 + l) (hex_digit lo))
    else none

-- The loop over the bytes: an escape takes three, anything else is copied. An escape needs both
-- of its digits inside the text, `i + 2 < bytes.len()`.
unfoldable pub decode_bytes : List ℕ → List ℕ
decode_bytes [] = []
decode_bytes (a ∷ []) = a ∷ []
decode_bytes (a ∷ b ∷ []) = a ∷ b ∷ []
decode_bytes (a ∷ b ∷ c ∷ r) = elim (escape_value a b c) [
  | some v ↦ v ∷ decode_bytes r
  | none ↦ a ∷ decode_bytes (b ∷ c ∷ r)
]

unfoldable pub percent_decode : Text → Text
unfolding decode_bytes
percent_decode input =
    if has b'%' input then unwrap_or (from_utf8 (decode_bytes (encode input))) input else input
