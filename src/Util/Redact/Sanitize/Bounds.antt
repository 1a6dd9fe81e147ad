-- ===== src/Util/Redact/Sanitize/Bounds.antt =====
-- What a sanitised text can hold.
use proxy_watch.Prelude.{
  ℕ, zero, suc, ◌+◌, ◌≤◌, ◌||◌, Bool, true, false, [], ◌∷◌, ◌≡◌, refl, ap, ◌∙◌, arith, map, any,
  any-append, length, length-append, ltb, if◌then◌else◌,
}
use proxy_watch.Text.{Text, is_control}
use proxy_watch.Util.Redact.Mask.{take_chars, redact_userinfo}
use proxy_watch.Util.Redact.Sanitize.{
  max_untrusted, sanitized_char, sanitize_untrusted, redact_and_sanitize_untrusted,
}

length-map : (f : ℕ → ℕ) (t : Text) → length (map f t) ≡ length t
length-map f [] = refl
length-map f (c ∷ t) = omega (arith, length-map f t)

length-take_chars : (n : ℕ) (t : Text) → length (take_chars n t) ≤ n
unfolding take_chars
length-take_chars zero t = omega arith
length-take_chars (suc n) [] = omega arith
length-take_chars (suc n) (c ∷ t) = omega (arith, length-take_chars n t)

sanitized_char-plain : (c : ℕ) → is_control (sanitized_char c) ≡ false
unfolding sanitized_char
sanitized_char-plain c = ground arith

any-sanitized : (t : Text) → any is_control (map sanitized_char t) ≡ false
any-sanitized [] = refl
any-sanitized (c ∷ t) = ground (arith, sanitized_char-plain c, any-sanitized t)

-- The mark behind a text that was cut.
abbrev mark : Bool → Text
mark cut = if cut then 0x2026 ∷ [] else []

length-mark : (cut : Bool) → length (mark cut) ≤ 1
length-mark cut = ground arith

any-mark : (cut : Bool) → any is_control (mark cut) ≡ false
any-mark true = refl
any-mark false = refl

sanitize_untrusted-bounds :
    (t : Text)
    → (length (sanitize_untrusted t) ≤ max_untrusted + 1)
      × (any is_control (sanitize_untrusted t) ≡ false)
unfolding sanitize_untrusted
sanitize_untrusted-bounds t =
    let kept = take_chars max_untrusted t in
    let cut = mark (ltb max_untrusted (length t)) in
    (
      omega (
        arith,
        length-append (map sanitized_char kept) cut,
        length-map sanitized_char kept,
        length-take_chars max_untrusted t,
        length-mark (ltb max_untrusted (length t)),
      ),
      any-append is_control (map sanitized_char kept) cut
          ∙ ap (λ b. b || any is_control cut) (any-sanitized kept)
          ∙ any-mark (ltb max_untrusted (length t)),
    )

-- A text that is sanitised, with its credentials redacted or not, has at most 257 characters, the
-- mark of the cut among them, and no control character.
pub sanitized-bounds :
    (t : Text)
    → (length (sanitize_untrusted t) ≤ max_untrusted + 1)
      × (any is_control (sanitize_untrusted t) ≡ false)
      × (length (redact_and_sanitize_untrusted t) ≤ max_untrusted + 1)
      × (any is_control (redact_and_sanitize_untrusted t) ≡ false)
unfolding redact_and_sanitize_untrusted
sanitized-bounds t =
    let plain = sanitize_untrusted-bounds t in
    let redacted = sanitize_untrusted-bounds (redact_userinfo (map sanitized_char t)) in
    (plain.0, plain.1, redacted.0, redacted.1)
