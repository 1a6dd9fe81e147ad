-- ===== src/Android/Selected.antt =====
-- src/sys/proxy_info.rs: what a `ProxySelector` of Android is asked, and the steps of its answer.
pub mod Escapes
pub mod Chosen
use proxy_watch.Crates.{Crates, Host}
use proxy_watch.Dict.Values.{show_number}
use proxy_watch.Endpoint
use proxy_watch.Endpoint.{ProxyEndpoint, parse_host}
use proxy_watch.Error.{Error, invalid_result}
use proxy_watch.Pac.Chain.{Chain, empty_chain, push, is_full, finish}
use proxy_watch.Prelude.{
  ℕ, ◌+◌, ◌-◌, ◌/◌, ◌%◌, ◌^◌, Bool, false, not, ◌&&◌, ◌||◌, Option, none, some, List, [], ◌∷◌, ◌++◌,
  ◌==◌, ltb, if◌then◌else◌, is_some, unwrap_or, or_option, and_then,
}
use proxy_watch.Prelude.Integer.{ℤ, try_unsigned}
use proxy_watch.Prelude.Result.{Result, ok, err, ok_or}
use proxy_watch.Resolve.{ProxyStep, direct_step, http_step, socks5_step, Steps}
use proxy_watch.Text.{Text, lit, text_eq}
use proxy_watch.Text.Address.{hex_digit}

-- The characters that a `URI` of Java refuses behind the authority.
unfoldable pub is_refused : ℕ → Bool
is_refused c =
    c == b'|'
    || c == b'^'
    || c == b'['
    || c == b']'
    || c == b'{'
    || c == b'}'
    || c == b'`'
    || c == b'\\'

abbrev pub upper_hex : ℕ → ℕ
upper_hex n = if ltb n 10 then b'0' + n else b'A' + (n - 10)

-- `{:02X}` of a number below 256, behind a percent sign.
abbrev pub percent_of : ℕ → Text
percent_of c = b'%' ∷ upper_hex (c / 16) ∷ upper_hex (c % 16) ∷ []

abbrev pub is_hex : ℕ → Bool
is_hex c = is_some (hex_digit c)

abbrev pub starts_hex : Text → Bool
starts_hex (a ∷ b ∷ _) = is_hex a && is_hex b
starts_hex _ = false

unfoldable pub java_char : ℕ → Text → Text
unfolding is_refused
java_char c behind =
    if is_refused c
    then percent_of c
    else if c == b'%' && not (starts_hex behind)
    then lit "%25"
    else c ∷ []

unfoldable pub java_rest : Text → Text
unfolding java_char
java_rest [] = []
java_rest (c ∷ behind) = java_char c behind ++ java_rest behind

-- The text up to the path, which is kept, and the rest of it.
unfoldable pub java_uri_text : Text → Text → Text
unfolding java_rest
java_uri_text authority rest = authority ++ java_rest rest

pub record SelectedProxy : Type 0 where
  pub kind : Text
  pub host : Option Text
  pub port : ℤ

abbrev nonzero : ℕ → Option ℕ
nonzero port = if port == 0 then none else some port

abbrev both : Error → Option Host → Option ℕ → Result Error ProxyEndpoint
both e (some host) (some port) = ok (Endpoint.new host port)
both e _ _ = err e

abbrev map_step : (ProxyEndpoint → ProxyStep) → Result Error ProxyEndpoint → Result Error ProxyStep
map_step f (ok e) = ok (f e)
map_step f (err e) = err e

module _ ⦃crates : Crates⦄ where
  abbrev host_of : Text → Option Host
  host_of host = elim (parse_host host) [ ok h ↦ some h | err _ ↦ none ]

  unfoldable pub selected_endpoint : SelectedProxy → Result Error ProxyEndpoint
  selected_endpoint p =
      both
        (invalid_result
          (p.kind ++ lit " " ++ unwrap_or p.host (lit "null") ++ lit ":" ++ show_number p.port))
        (and_then p.host host_of) (and_then (try_unsigned (2 ^ 16) p.port) nonzero)

  unfoldable pub selected_step : SelectedProxy → Result Error ProxyStep
  unfolding selected_endpoint
  selected_step p =
      if text_eq p.kind (lit "DIRECT")
      then ok direct_step
      else if text_eq p.kind (lit "HTTP")
      then map_step http_step (selected_endpoint p)
      else if text_eq p.kind (lit "SOCKS")
      then map_step socks5_step (selected_endpoint p)
      else err (invalid_result p.kind)

  -- The loop over the proxies, which stops once the chain is full, and the first error.
  unfoldable pub choose : List SelectedProxy → Chain → Option Error → Chain × Option Error
  choose [] c first = (c, first)
  choose (p ∷ ps) c first = elim (selected_step p) [
    | ok s ↦
        let next = push s c in
        let rest = choose ps next first in if is_full next then (next, first) else rest
    | err e ↦ choose ps c (or_option first (some e))
  ]

  unfoldable pub steps_from_selected : List SelectedProxy → Steps
  unfolding choose
  steps_from_selected selected =
      let (chain, first) = choose selected empty_chain none in
      ok_or (unwrap_or first (invalid_result (lit "ProxySelector.select returned no proxy")))
        (finish chain)
