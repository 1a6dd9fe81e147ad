-- ===== src/Windows.antt =====
-- src/parse.rs: the Windows `ProxyServer` string and `windows_manual`.
pub mod Catchall
pub mod Tokens
pub mod Registry
use proxy_watch.Bypass.Lists.{proxy_override}
use proxy_watch.Crates.{Crates}
use proxy_watch.Diagnostic
use proxy_watch.Diagnostic.{
  RejectedValue, invalid_proxy_endpoint, unknown_proxy_scheme, proxy_server, for_scheme,
}
use proxy_watch.Endpoint.{
  ProxyEndpoint, ProxyEntry, use_endpoint, disabled, unusable, parse_endpoint, with_scheme_hint,
}
use proxy_watch.Mode.{ProxyMode, direct, manual, with_rejected}
use proxy_watch.Mode.Table.{Slots, no_slots, get, insert, or_insert, no_entries}
use proxy_watch.Prelude.{
  ℕ, Bool, true, false, not, ◌&&◌, ◌||◌, Option, none, some, List, [], ◌∷◌, ◌++◌, ltb, ◌==◌,
  if◌then◌else◌, is_nil, is_some, length,
}
use proxy_watch.Prelude.Result.{ok, err}
use proxy_watch.Scheme.{Scheme, ProxyScheme, scheme_eq, scheme_from_name, scheme_port}
use proxy_watch.Text.{Text, is_whitespace, split, split_at, split_once, trim_with}

abbrev pub windows_default_port : ℕ
windows_default_port = 80

abbrev pub is_server_separator : ℕ → Bool
is_server_separator c = c == b';' || c == b' ' || c == b'\t' || c == b'\r' || c == b'\n'

abbrev ends_key : ℕ → Bool
ends_key c = c == b':' || c == b'/' || c == b'?' || c == b'#'

-- The length of the text before the first character that ends a key.
abbrev boundary : Text → ℕ
boundary token = elim (split_at ends_key token) [ none ↦ length token | some r ↦ length r.0 ]

-- An equals sign separates a key only before that boundary.
unfoldable pub split_scheme_key : Text → Option (Text × Text)
split_scheme_key token = elim (split_once b'=' token) [
  | none ↦ none
  | some r ↦ if ltb (length r.0) (boundary token) then some r else none
]

-- The map of the entries, and the drops.
abbrev pub Server : Type 0
Server = Slots × List RejectedValue

abbrev is_socks : Scheme → Bool
is_socks scheme = scheme_eq scheme Scheme.socks

-- A bare `socks=` value is read as SOCKS4.
abbrev socks_hint : Scheme → ProxyEndpoint → ProxyEndpoint
socks_hint scheme e =
    if is_socks scheme && not (is_some e.scheme_hint)
    then with_scheme_hint ProxyScheme.socks4 e
    else e

abbrev drop_token : Text → Scheme → RejectedValue
drop_token token scheme =
    for_scheme (some scheme) (Diagnostic.new invalid_proxy_endpoint proxy_server token)

abbrev key_port : Scheme → ℕ
key_port scheme = if is_socks scheme then scheme_port ProxyScheme.socks4 else windows_default_port

module _ ⦃crates : Crates⦄ where
  -- A value under a known key: empty, an endpoint, or a drop. Losing `socks=` loses the fallback.
  read_keyed : Text → Scheme → Text → Server → Server
  read_keyed token scheme value s =
      if is_nil (trim_with is_whitespace value)
      then (insert scheme disabled s.0, s.1)
      else elim (parse_endpoint value (key_port scheme)) [
        | ok e ↦ (insert scheme (use_endpoint (socks_hint scheme e)) s.0, s.1)
        | err _ ↦
            (s.0, s.1 ++ drop_token token (if is_socks scheme then Scheme.all else scheme) ∷ [])
      ]

  read_bare : Text → Server → Server
  read_bare token s = elim (parse_endpoint token windows_default_port) [
    | ok e ↦ (insert Scheme.all (use_endpoint e) s.0, s.1)
    | err _ ↦ (s.0, s.1 ++ drop_token token Scheme.all ∷ [])
  ]

  read_key : Text → Text → Option Scheme → Server → Server
  unfolding read_keyed
  read_key token value none s =
      (s.0, s.1 ++ Diagnostic.new unknown_proxy_scheme proxy_server token ∷ [])
  read_key token value (some scheme) s = read_keyed token scheme value s

  unfoldable pub read_token : Text → Server → Server
  unfolding read_key read_bare
  read_token token s = elim (split_scheme_key token) [
    | some r ↦ read_key token r.1 (scheme_from_name r.0) s
    | none ↦ read_bare token s
  ]

  unfoldable pub read_tokens : List Text → Server → Server
  read_tokens [] s = s
  read_tokens (raw ∷ tokens) s =
      let token = trim_with is_whitespace raw in
      read_tokens tokens (if is_nil token then s else read_token token s)

-- Fill a slot with the SOCKS endpoint, if nothing stands there.
abbrev fill_four : ProxyEntry → Slots → Slots
fill_four e m =
    or_insert Scheme.all e
      (or_insert Scheme.ftp e (or_insert Scheme.https e (or_insert Scheme.http e m)))

catch_all_from : Option ProxyEntry → Slots → Slots
catch_all_from (some (use_endpoint e)) m = fill_four (use_endpoint e) m
catch_all_from _ m = m

unfoldable pub apply_socks_catch_all : Slots → Slots
unfolding catch_all_from
apply_socks_catch_all m =
    if is_some (get m Scheme.all) then m else catch_all_from (get m Scheme.socks) m

module _ ⦃crates : Crates⦄ where
  unfoldable pub proxy_server_with_rejected : Text → Server
  unfolding read_tokens
  proxy_server_with_rejected spec =
      let s = read_tokens (split is_server_separator spec) (no_slots, []) in
      (apply_socks_catch_all s.0, s.1)

  unfoldable pub proxy_server_map : Text → Slots
  unfolding proxy_server_with_rejected
  proxy_server_map spec = (proxy_server_with_rejected spec).0

  unfoldable pub windows_manual : Text → Text → ProxyMode
  unfolding proxy_server_with_rejected
  windows_manual server override_list =
      let s = proxy_server_with_rejected server in
      if no_entries s.0 && is_nil s.1
      then direct
      else with_rejected s.1 (manual s.0 (proxy_override override_list))
