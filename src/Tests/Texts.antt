-- ===== src/Tests/Texts.antt =====
-- The text utilities on small inputs.
use proxy_watch.Prelude.{◌+◌, ◌≤◌, true, false, any, length, ◌≡◌, refl}
use proxy_watch.Text.{lit, is_control, text_ops}
use proxy_watch.Util.Glob.{glob_match, glob_parts}
use proxy_watch.Util.Glob.Reference.{glob_reading, glob_match_lem}
use proxy_watch.Util.Redact.{max_untrusted, sanitize_untrusted, redact_and_sanitize_untrusted}
use proxy_watch.Util.Redact.Sanitize.Bounds.{sanitized-bounds}

first_found : glob_match (lit "a*b*b") (lit "abcb") ≡ true
unfolding glob_match glob_parts text_ops
first_found = refl

overlap_refused : glob_match (lit "ab*ba") (lit "aba") ≡ false
unfolding glob_match glob_parts text_ops
overlap_refused = refl

glob_match_lem_example :
    glob_match (lit "a*b*b") (lit "abcb") ≡ glob_reading (lit "a*b*b") (lit "abcb")
glob_match_lem_example = glob_match_lem (lit "a*b*b") (lit "abcb")

sanitized-bounds_example :
    (length (sanitize_untrusted (lit "u:p@h")) ≤ max_untrusted + 1)
    × (any is_control (sanitize_untrusted (lit "u:p@h")) ≡ false)
    × (length (redact_and_sanitize_untrusted (lit "u:p@h")) ≤ max_untrusted + 1)
    × (any is_control (redact_and_sanitize_untrusted (lit "u:p@h")) ≡ false)
sanitized-bounds_example = sanitized-bounds (lit "u:p@h")
