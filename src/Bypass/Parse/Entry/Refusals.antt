-- ===== src/Bypass/Parse/Entry/Refusals.antt =====
-- Which entries are refused in every dialect.
use proxy_watch.Bypass.Parse.Entry.{parse_in, parse_trimmed}
use proxy_watch.Bypass.Parse.Flow.{return}
use proxy_watch.Bypass.Parse.Guards.{token_entry, guard_text, is_rejecting_text}
use proxy_watch.Bypass.Pattern.{BypassDialect, trim_entry, local_token, no_loopback_token}
use proxy_watch.Crates.{Crates}
use proxy_watch.Error.{bypass}
use proxy_watch.Prelude.{
  ℕ, true, false, ◌==◌, none, [], ◌∷◌, ◌≡◌, refl, ap, arith, any, is_nil, Bool-cases, inl, inr,
  if◌then◌else◌,
}
use proxy_watch.Prelude.Result.{err}
use proxy_watch.Reason.{has_credentials, has_whitespace}
use proxy_watch.Text.{Text, lit, lower, lower_char, is_whitespace, has, text_eq, text_eq_iff}

lower_char-at : (c : ℕ) → (lower_char c == b'@') ≡ (c == b'@')
unfolding lower_char
lower_char-at c = ground arith

lower_char-is_whitespace : (c : ℕ) → is_whitespace (lower_char c) ≡ is_whitespace c
unfolding lower_char is_whitespace
lower_char-is_whitespace c = ground arith

has-lower : (t : Text) → has b'@' (lower t) ≡ has b'@' t
has-lower [] = refl
has-lower (c ∷ t) = ground (arith, lower_char-at c, has-lower t)

any-lower : (t : Text) → any is_whitespace (lower t) ≡ any is_whitespace t
any-lower [] = refl
any-lower (c ∷ t) = ground (arith, lower_char-is_whitespace c, any-lower t)

is_rejecting_text-lower : (t : Text) → is_rejecting_text (lower t) ≡ is_rejecting_text t
is_rejecting_text-lower t = ground (arith, has-lower t, any-lower t)

text_eq-rejecting :
    (t k : Text)
    → is_rejecting_text t ≡ true
    → is_rejecting_text k ≡ false
    → text_eq (lower t) k ≡ false
text_eq-rejecting t k h n = elim (Bool-cases (text_eq (lower t) k)) [
  | inl same ↦ absurd (
      cc (h, n, is_rejecting_text-lower t, ap is_rejecting_text ((text_eq_iff (lower t) k).0 same)))
  | inr other ↦ other
]

star_plain : is_rejecting_text (lit "*") ≡ false
unfolding is_whitespace
star_plain = refl

local_plain : is_rejecting_text local_token ≡ false
unfolding is_whitespace
local_plain = refl

no_loopback_plain : is_rejecting_text no_loopback_token ≡ false
unfolding is_whitespace
no_loopback_plain = refl

token_entry-rejecting :
    (d : BypassDialect) (t : Text) → is_rejecting_text t ≡ true → token_entry d (lower t) ≡ none
unfolding token_entry
token_entry-rejecting d t h =
    rw
      (
        text_eq-rejecting t (lit "*") h star_plain,
        text_eq-rejecting t local_token h local_plain,
        text_eq-rejecting t no_loopback_token h no_loopback_plain,
      )
      refl

is_rejecting_text-nil : (t : Text) → is_rejecting_text t ≡ true → is_nil t ≡ false
is_rejecting_text-nil [] h = cc h
is_rejecting_text-nil (c ∷ t) h = refl

is_rejecting_text-blank :
    (t : Text) → is_rejecting_text t ≡ true → has b'@' t ≡ false → any is_whitespace t ≡ true
is_rejecting_text-blank t h n = ground (arith, h, n)

module _ ⦃crates : Crates⦄ where
  parse_trimmed-rejecting :
      (d : BypassDialect) (t : Text)
      → is_rejecting_text t ≡ true
      → parse_trimmed d t
        ≡ return (err (bypass t (if has b'@' t then has_credentials else has_whitespace)))
  unfolding parse_trimmed guard_text
  parse_trimmed-rejecting d t h = elim (Bool-cases (has b'@' t)) [
    | inl at ↦ rw (token_entry-rejecting d t h, at) refl
    | inr clear ↦ rw (token_entry-rejecting d t h, clear, is_rejecting_text-blank t h clear) refl
  ]

  -- An entry that, trimmed as its list does, holds an at-sign or white space is refused in every
  -- dialect: with the error for credentials if it has the at-sign, and else with that for white
  -- space.
  pub parse_in-rejecting :
      (entry : Text) (d : BypassDialect)
      → is_rejecting_text (trim_entry d entry) ≡ true
      → parse_in entry d
        ≡ err (
            bypass
              (trim_entry d entry)
              (if has b'@' (trim_entry d entry) then has_credentials else has_whitespace))
  unfolding parse_in
  parse_in-rejecting entry d h =
      rw
        (
          is_rejecting_text-nil (trim_entry d entry) h,
          parse_trimmed-rejecting d (trim_entry d entry) h,
        )
        refl
