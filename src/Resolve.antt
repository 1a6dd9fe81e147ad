-- ===== src/Resolve.antt =====
-- src/resolve.rs: from a snapshot and a URL to the steps to try.
pub mod Routes
pub mod Schemes
use proxy_watch.Bypass.Rules.{BypassRules, matches_url}
use proxy_watch.Config.{ProxyConfig}
use proxy_watch.Crates.{Url, Crates}
use proxy_watch.Diagnostic.{RejectedValue}
use proxy_watch.Endpoint.{
  ProxyEndpoint, ProxyEntry, use_endpoint, disabled, unusable, has_request_host,
}
use proxy_watch.Error.{Error, pac_not_supported, proxy_entry_unusable, pac_fetch_required}
use proxy_watch.Mode.{
  ProxyMode, direct, manual_mode, pac_mode, pac_inline_mode, wpad_auto_detect, entry_for,
  websocket_entry,
}
use proxy_watch.Prelude.{
  ℕ, Bool, true, false, not, ◌&&◌, ◌||◌, Option, none, some, List, [], ◌∷◌, if◌then◌else◌,
  unwrap_or, or_option,
}
use proxy_watch.Prelude.Result.{Result, ok, err}
use proxy_watch.Scheme.{Scheme, ProxyScheme}
use proxy_watch.Text.{Text, lit, text_eq}

pub data ProxyStep : Type 0 where
  direct_step : ProxyStep
  http_step https_step socks4_step socks5_step : ProxyEndpoint → ProxyStep

unfoldable pub is_direct_step : ProxyStep → Bool
is_direct_step direct_step = true
is_direct_step _ = false

unfoldable pub step_endpoint : ProxyStep → Option ProxyEndpoint
step_endpoint direct_step = none
step_endpoint (http_step e) = some e
step_endpoint (https_step e) = some e
step_endpoint (socks4_step e) = some e
step_endpoint (socks5_step e) = some e

unfoldable pub step_scheme : ProxyStep → Option Text
step_scheme direct_step = none
step_scheme (http_step e) = some (lit "http")
step_scheme (https_step e) = some (lit "https")
step_scheme (socks4_step e) = some (lit "socks4")
step_scheme (socks5_step e) = some (lit "socks5")

abbrev is_hint : ProxyScheme → Option ProxyScheme → Bool
is_hint ProxyScheme.socks4a (some ProxyScheme.socks4a) = true
is_hint ProxyScheme.socks5h (some ProxyScheme.socks5h) = true
is_hint _ _ = false

-- The scheme that `to_url` writes: the step's own, refined by the endpoint's hint.
unfoldable pub url_scheme : ProxyStep → ProxyEndpoint → Text
unfolding step_scheme
url_scheme (socks4_step s) e =
    if is_hint ProxyScheme.socks4a e.scheme_hint then lit "socks4a" else lit "socks4"
url_scheme (socks5_step s) e =
    if is_hint ProxyScheme.socks5h e.scheme_hint then lit "socks5h" else lit "socks5"
url_scheme step e = unwrap_or (step_scheme step) (lit "")

step_for : Option ProxyScheme → ProxyEndpoint → ProxyStep
step_for none e = http_step e
step_for (some ProxyScheme.http) e = http_step e
step_for (some ProxyScheme.https) e = https_step e
step_for (some ProxyScheme.socks4) e = socks4_step e
step_for (some ProxyScheme.socks4a) e = socks4_step e
step_for (some ProxyScheme.socks5) e = socks5_step e
step_for (some ProxyScheme.socks5h) e = socks5_step e

unfoldable pub from_endpoint : ProxyEndpoint → ProxyStep
unfolding step_for
from_endpoint e = step_for e.scheme_hint e

unfoldable pub request_scheme : Text → Scheme
request_scheme s =
    if text_eq s (lit "http")
    then Scheme.http
    else if text_eq s (lit "https")
    then Scheme.https
    else if text_eq s (lit "ftp")
    then Scheme.ftp
    else if text_eq s (lit "socks")
        || text_eq s (lit "socks4")
        || text_eq s (lit "socks4a")
        || text_eq s (lit "socks5")
        || text_eq s (lit "socks5h")
    then Scheme.socks
    else Scheme.all

abbrev pub Steps : Type 0
Steps = Result Error (List ProxyStep)

abbrev pub go_direct : Steps
go_direct = ok (direct_step ∷ [])

-- What the entry that was found answers.
unfoldable pub answer : Option ProxyEntry → Steps
answer (some (use_endpoint e)) = ok (from_endpoint e ∷ [])
answer (some disabled) = go_direct
answer (some (unusable r)) = err (proxy_entry_unusable (unwrap_or r.affected_scheme Scheme.all) r)
answer none = go_direct

abbrev pub is_websocket : Text → Bool
is_websocket s = text_eq s (lit "ws") || text_eq s (lit "wss")

unfoldable pub entry_of_url : ProxyMode → Url → Option ProxyEntry
entry_of_url mode url =
    if is_websocket url.scheme
    then websocket_entry mode
    else entry_for (request_scheme url.scheme) mode

module _ ⦃crates : Crates⦄ where
  unfoldable pub resolve_mode : ProxyMode → Url → Steps
  unfolding answer entry_of_url
  resolve_mode direct url = go_direct
  resolve_mode (pac_mode _ _) url = err (pac_not_supported (lit "pac"))
  resolve_mode (pac_inline_mode _ _) url = err (pac_not_supported (lit "pac-inline"))
  resolve_mode wpad_auto_detect url = err (pac_not_supported (lit "wpad"))
  resolve_mode (manual_mode slots bypass rejected) url =
      if not (has_request_host url)
      then go_direct
      else if matches_url bypass url
      then go_direct
      else answer (entry_of_url (manual_mode slots bypass rejected) url)

  unfoldable pub resolve : ProxyConfig → Url → Steps
  unfolding resolve_mode
  resolve config url = resolve_mode config.effective url

  -- The script to evaluate: the caller's, or the mode's own.
  script_of : ProxyMode → Option Text → Result Error Text
  script_of mode (some script) = ok script
  script_of (pac_inline_mode script _) none = ok script
  script_of (pac_mode url _) none = err (pac_fetch_required url)
  script_of wpad_auto_detect none = err (pac_not_supported (lit "wpad"))
  script_of _ none = err (pac_not_supported (lit "unknown"))

  run_script : (Text → Steps) → Result Error Text → Steps
  run_script run (ok script) = run script
  run_script run (err e) = err e

  resolve_auto : ProxyMode → Url → Option Text → (Text → Steps) → Steps
  unfolding script_of run_script
  resolve_auto mode url script run =
      if not (has_request_host url) then go_direct else run_script run (script_of mode script)

  -- `resolve_with_pac_using`, with the evaluation of a script left to `run`.
  unfoldable pub resolve_mode_with_pac : ProxyMode → Url → Option Text → (Text → Steps) → Steps
  unfolding resolve_auto resolve_mode
  resolve_mode_with_pac direct url script run = resolve_mode direct url
  resolve_mode_with_pac (manual_mode m b r) url script run = resolve_mode (manual_mode m b r) url
  resolve_mode_with_pac mode url script run = resolve_auto mode url script run

  unfoldable pub resolve_with_pac_using : ProxyConfig → Url → Option Text → (Text → Steps) → Steps
  unfolding resolve_mode_with_pac
  resolve_with_pac_using config = resolve_mode_with_pac config.effective
