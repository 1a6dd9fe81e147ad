-- ===== src/Util/Redact/Shape.antt =====
-- Texts that still look as if they held a credential, and `redact_offending_token`.
use proxy_watch.Prelude.{
  ℕ, Bool, false, not, ◌&&◌, ◌||◌, Option, none, some, List, [], ◌∷◌, ◌++◌, ◌==◌, if◌then◌else◌,
  any, all, first, length, is_nil, is_some, map_option, unwrap_or,
}
use proxy_watch.Text.{
  Text, lit, is_digit, is_whitespace, text_eq, has, split, split_at, rsplit_once, strip_prefix,
  starts_with, trim_with, find_text,
}
use proxy_watch.Text.Address.{parse_ipv6}
use proxy_watch.Text.Number.{show}
use proxy_watch.Util.HostPort.{strip_brackets}
use proxy_watch.Util.Redact.Mask.{
  mask, drop_chars, indices, encoded_colon, earlier_end, redact_userinfo,
}

unfoldable pub encoded_colon_at : Text → Option ℕ
unfolding indices
encoded_colon_at t = first (indices encoded_colon 0 t)

unfoldable pub userinfo_delimiter_end : Text → Option ℕ
unfolding encoded_colon_at
userinfo_delimiter_end t =
    earlier_end (map_option (λ r. length r.0) (split_at (λ c. c == b':') t)) (encoded_colon_at t)

-- The scheme's own `://` is one with no userinfo delimiter before it.
unfoldable pub after_scheme : Text → Text
unfolding userinfo_delimiter_end
after_scheme t = elim (find_text (lit "://") t) [
  | none ↦ t
  | some r ↦ if is_some (userinfo_delimiter_end r.0) then t else r.1
]

abbrev signless : Text → Text
signless t = unwrap_or (strip_prefix (lit "-") t) t

abbrev without_port : Text → Text
without_port rest = elim (rsplit_once b':' rest) [
  | none ↦ rest
  | some r ↦
      let digits = signless r.1 in if not (is_nil digits) && all is_digit digits then r.0 else rest
]

unfoldable pub stranded_userinfo_shaped : Text → Bool
unfolding after_scheme strip_brackets encoded_colon_at
stranded_userinfo_shaped token =
    let whole = after_scheme token in
    let rest : Text = elim (rsplit_once b'@' whole) [ none ↦ whole | some r ↦ r.1 ] in
    let head : Text = elim (split_at (λ c. c == b'/' || c == b'?' || c == b'#') rest) [
      | none ↦ rest
      | some r ↦ r.0
    ] in
    let trimmed = trim_with is_whitespace (if is_nil head then rest else head) in
    let host = strip_brackets (without_port trimmed) in
    not (is_some (parse_ipv6 trimmed))
    && not (is_some (parse_ipv6 host))
    && (has b':' host || is_some (encoded_colon_at host))

abbrev is_boundary : ℕ → Bool
is_boundary c = c == b' ' || c == b'\t' || c == b'\n'

abbrev drop_two : Text → Text
drop_two (a ∷ b ∷ r) = r
drop_two _ = []

-- A `***@` directly behind a colon, or behind an escaped one.
carries_a_mask_boundary : Text → Bool
carries_a_mask_boundary (c ∷ t) =
    c == b':' && starts_with (lit "***@") t
    || encoded_colon (c ∷ t) && starts_with (lit "***@") (drop_two t)
    || carries_a_mask_boundary t
carries_a_mask_boundary [] = false

mask_boundary_from : Bool → List Text → Bool
unfolding carries_a_mask_boundary
mask_boundary_from past [] = false
mask_boundary_from past (piece ∷ pieces) =
    elim (rsplit_once b'@' piece) [
      | none ↦ false
      | some r ↦ past && not (is_some (userinfo_delimiter_end (after_scheme r.0)))
    ]
    || mask_boundary_from (past || carries_a_mask_boundary piece) pieces

unfoldable pub mask_boundary_stranded_a_tail : Text → Bool
unfolding mask_boundary_from userinfo_delimiter_end after_scheme
mask_boundary_stranded_a_tail token = mask_boundary_from false (split is_boundary token)

residual_piece : Text → Bool
unfolding stranded_userinfo_shaped
residual_piece piece = elim (rsplit_once b'@' piece) [
  | none ↦ stranded_userinfo_shaped piece
  | some r ↦
      let userinfo = after_scheme r.0 in
      elim (userinfo_delimiter_end userinfo) [
        | none ↦ false
        | some end ↦ not (text_eq (drop_chars end userinfo) mask) && stranded_userinfo_shaped r.0
      ]
]

unfoldable pub residual_credential_shaped : Text → Bool
unfolding mask_boundary_stranded_a_tail residual_piece drop_chars
residual_credential_shaped token =
    mask_boundary_stranded_a_tail token || any residual_piece (split is_boundary token)

unfoldable pub withheld_description : Text → Text
unfolding show
withheld_description t =
    lit "<" ++ show (length t) ++ lit " characters, withheld: it may hold a user:password fragment>"

unfoldable pub redact_offending_token : Text → Text
unfolding stranded_userinfo_shaped residual_credential_shaped withheld_description
redact_offending_token input =
    let masked = redact_userinfo input in
    if stranded_userinfo_shaped masked || residual_credential_shaped masked
    then withheld_description masked
    else masked

-- The text itself, or its description: the source also puts quotes round the text.
unfoldable pub quote_if_not_credential_shaped : Text → Text
unfolding userinfo_delimiter_end withheld_description
quote_if_not_credential_shaped t =
    if is_some (userinfo_delimiter_end t) then withheld_description t else t
