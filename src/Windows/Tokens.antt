-- ===== src/Windows/Tokens.antt =====
-- No token of a `ProxyServer` string is lost without a trace.
use proxy_watch.Bypass.Rules.{BypassRules}
use proxy_watch.Crates.{Crates}
use proxy_watch.Diagnostic.{RejectedValue}
use proxy_watch.Endpoint.{ProxyEntry}
use proxy_watch.Mode.{direct, is_direct, manual, with_rejected}
use proxy_watch.Mode.Table.{Slots, no_slots, insert, no_entries}
use proxy_watch.Prelude.{
  is_nil-concat, Bool, true, false, ◌&&◌, Option, none, some, List, [], ◌∷◌, ◌≡◌, inl, inr, ◌↔◌,
  refl, arith, All, is_nil, Bool-cases, Option-cases, ◌∙◌, sym, ap,
}
use proxy_watch.Scheme.{Scheme, scheme_from_name}
use proxy_watch.Text.{Text, is_whitespace, split, trim_with}
use proxy_watch.Windows.{
  Server, is_server_separator, read_bare, read_keyed, read_key, split_scheme_key, read_token,
  read_tokens, apply_socks_catch_all, proxy_server_with_rejected, windows_manual,
}

-- Neither an entry nor a drop has been recorded.
abbrev pub is_untouched : Server → Bool
is_untouched s = no_entries s.0 && is_nil s.1

abbrev pub is_blank : Text → Bool
is_blank t = is_nil (trim_with is_whitespace t)

no_entries-insert : (s : Scheme) (e : ProxyEntry) (m : Slots) → no_entries (insert s e m) ≡ false
no_entries-insert s e m = ground arith

no_entries-catch_all : (m : Slots) → no_entries (apply_socks_catch_all m) ≡ no_entries m
unfolding apply_socks_catch_all
no_entries-catch_all m = ground arith

manual-ne-direct :
    (rs : List RejectedValue) (m : Slots) (b : BypassRules)
    → is_direct (with_rejected rs (manual m b)) ≡ false
unfolding is_direct manual with_rejected
manual-ne-direct rs m b = refl

module _ ⦃crates : Crates⦄ where
  read_keyed-touches :
      (token : Text) (scheme : Scheme) (value : Text) (m : Slots) (rs : List RejectedValue)
      → is_untouched (read_keyed token scheme value (m, rs)) ≡ false
  unfolding read_keyed
  read_keyed-touches token scheme value m rs = grind (arith, is_nil-concat, no_entries-insert)

  read_bare-touches :
      (token : Text) (m : Slots) (rs : List RejectedValue)
      → is_untouched (read_bare token (m, rs)) ≡ false
  unfolding read_bare
  read_bare-touches token m rs = grind (arith, is_nil-concat, no_entries-insert)

  read_key-touches :
      (token value : Text) (o : Option Scheme) (m : Slots) (rs : List RejectedValue)
      → is_untouched (read_key token value o (m, rs)) ≡ false
  unfolding read_key
  read_key-touches token value none m rs = grind (arith, is_nil-concat)
  read_key-touches token value (some scheme) m rs = read_keyed-touches token scheme value m rs

  -- A token that is read leaves an entry or a drop.
  read_token-touches : (token : Text) (s : Server) → is_untouched (read_token token s) ≡ false
  unfolding read_token
  read_token-touches token (m, rs) = elim (Option-cases (split_scheme_key token)) [
    | inl bare ↦ rw (bare, read_token) (read_bare-touches token m rs)
    | inr (r, keyed) ↦
        rw (keyed, read_token) (read_key-touches token r.1 (scheme_from_name r.0) m rs)
  ]

  module _ (t : Text) (ts : List Text) (s : Server) where
    read_tokens-blank_cons : is_blank t ≡ true → read_tokens (t ∷ ts) s ≡ read_tokens ts s
    unfolding read_tokens
    read_tokens-blank_cons h = ground arith

    read_tokens-word_cons :
        is_blank t ≡ false
        → read_tokens (t ∷ ts) s ≡ read_tokens ts (read_token (trim_with is_whitespace t) s)
    unfolding read_tokens
    read_tokens-word_cons h = ground arith

  read_tokens-touched :
      (tokens : List Text) (s : Server)
      → is_untouched s ≡ false
      → is_untouched (read_tokens tokens s) ≡ false
  unfolding read_tokens
  read_tokens-touched [] s h = h
  read_tokens-touched (t ∷ ts) s h = elim (Bool-cases (is_blank t)) [
    | inl blank ↦ rw (read_tokens-blank_cons t ts s blank) (read_tokens-touched ts s h)
    | inr word ↦
        rw (read_tokens-word_cons t ts s word)
          (read_tokens-touched ts _ (read_token-touches (trim_with is_whitespace t) s))
  ]

  read_tokens-blank :
      (tokens : List Text) (s : Server)
      → is_untouched (read_tokens tokens s) ≡ true
      → All (λ t. is_blank t ≡ true) tokens
  read_tokens-blank [] s h = tt
  read_tokens-blank (t ∷ ts) s h = elim (Bool-cases (is_blank t)) [
    | inl blank ↦ (blank, read_tokens-blank ts s (rw (read_tokens-blank_cons t ts s blank) at h))
    | inr word ↦ absurd (
        cc (
          h,
          read_tokens-word_cons t ts s word,
          read_tokens-touched ts (read_token (trim_with is_whitespace t) s)
              (read_token-touches (trim_with is_whitespace t) s),
        ))
  ]

  read_tokens_skip :
      (tokens : List Text) (s : Server)
      → All (λ t. is_blank t ≡ true) tokens
      → read_tokens tokens s ≡ s
  unfolding read_tokens
  read_tokens_skip [] s h = refl
  read_tokens_skip (t ∷ ts) s h = read_tokens-blank_cons t ts s h.0 ∙ read_tokens_skip ts s h.1

  -- Direct is what `windows_manual` answers when nothing was touched, and nothing else is direct.
  windows_manual-untouched :
      (server override_list : Text) (s : Server)
      → proxy_server_with_rejected server ≡ s
      → (windows_manual server override_list ≡ direct) ↔ (is_untouched s ≡ true)
  unfolding windows_manual is_direct manual with_rejected
  windows_manual-untouched server override_list s h = elim (Bool-cases (is_untouched s)) [
    | inl untouched ↦ ground (arith)
    | inr touched ↦ ground (arith)
  ]

  proxy_server_with_rejected-untouched :
      (server : Text)
      → is_untouched (proxy_server_with_rejected server)
        ≡ is_untouched (read_tokens (split is_server_separator server) (no_slots, []))
  unfolding proxy_server_with_rejected
  proxy_server_with_rejected-untouched server = rw no_entries-catch_all refl

  -- A `ProxyServer` string reads as direct exactly when every token of it is blank: a token that
  -- cannot be parsed, or names an unknown scheme, keeps the mode manual.
  pub windows_manual-direct_iff :
      (server override_list : Text)
      → (windows_manual server override_list ≡ direct)
        ↔ All (λ t. is_blank t ≡ true) (split is_server_separator server)
  windows_manual-direct_iff server override_list =
      let iff =
        windows_manual-untouched server override_list (proxy_server_with_rejected server) refl in
      let same = proxy_server_with_rejected-untouched server in
      let tokens = split is_server_separator server in
      (
        λ h. read_tokens-blank tokens (no_slots, []) (sym same ∙ iff.0 h),
        λ h. iff.1 (same ∙ ap is_untouched (read_tokens_skip tokens (no_slots, []) h)),
      )
