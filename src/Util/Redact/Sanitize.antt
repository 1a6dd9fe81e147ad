-- ===== src/Util/Redact/Sanitize.antt =====
-- `sanitize_untrusted`: text from outside, with control characters replaced and its length bounded.
pub mod Bounds
use proxy_watch.Prelude.{ℕ, [], ◌∷◌, ◌++◌, ltb, if◌then◌else◌, map, length}
use proxy_watch.Text.{Text, is_control}
use proxy_watch.Util.Redact.Mask.{take_chars, redact_userinfo}

abbrev pub max_untrusted : ℕ
max_untrusted = 256

unfoldable pub sanitized_char : ℕ → ℕ
sanitized_char c = if is_control c then b'.' else c

unfoldable pub sanitize_untrusted : Text → Text
unfolding take_chars sanitized_char
sanitize_untrusted input =
    map sanitized_char (take_chars max_untrusted input)
    ++ (if ltb max_untrusted (length input) then 0x2026 ∷ [] else [])

unfoldable pub redact_and_sanitize_untrusted : Text → Text
unfolding sanitize_untrusted
redact_and_sanitize_untrusted input =
    sanitize_untrusted (redact_userinfo (map sanitized_char input))
