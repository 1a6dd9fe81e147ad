-- ===== src/Endpoint/Base.antt =====
-- `ProxyEndpoint`, `ProxyEntry`, `parse_host` and the host of a URL.
use proxy_watch.Auth.{ProxyAuth}
use proxy_watch.Crates.{Host, domain, ipv4, ipv6, Url, Crates}
use proxy_watch.Diagnostic.{RejectedValue}
use proxy_watch.Prelude.{
  ℕ, Bool, true, false, Option, none, some, [], ◌∷◌, ◌++◌, if◌then◌else◌, is_nil, is_some, and_then,
}
use proxy_watch.Prelude.Result.{Result, ok, err, ok_or}
use proxy_watch.Reason.{Reason, missing_host, invalid_ipv6, invalid_host}
use proxy_watch.Scheme.{ProxyScheme, proxy_scheme_name}
use proxy_watch.Text.{Text, lit, is_whitespace, trim_with, strip_prefix, strip_suffix}
use proxy_watch.Text.Address.{parse_ipv6, show_ipv4, show_ipv6}
use proxy_watch.Text.Number.{show}
use proxy_watch.Util.Redact.{quote_if_not_credential_shaped}

pub record ProxyEndpoint : Type 0 where
  pub scheme_hint : Option ProxyScheme
  pub host : Host
  pub port : ℕ
  pub auth : Option ProxyAuth

unfoldable pub new : Host → ℕ → ProxyEndpoint
new host port = record { scheme_hint = none; host = host; port = port; auth = none }

unfoldable pub with_scheme_hint : ProxyScheme → ProxyEndpoint → ProxyEndpoint
with_scheme_hint scheme e = record e { scheme_hint = some scheme }

unfoldable pub with_auth : ProxyAuth → ProxyEndpoint → ProxyEndpoint
with_auth auth e = record e { auth = some auth }

-- `url::Host::to_string`, which puts the brackets round an IPv6 address.
abbrev pub show_host : Host → Text
show_host (domain d) = d
show_host (ipv4 a) = show_ipv4 a
show_host (ipv6 a) = b'[' ∷ (show_ipv6 a ++ b']' ∷ [])

unfoldable pub authority : ProxyEndpoint → Text
authority e = show_host e.host ++ (b':' ∷ show e.port)

-- `Display for ProxyEndpoint`: the scheme where there is one, and no credentials.
unfoldable pub show_endpoint : ProxyEndpoint → Text
unfolding authority
show_endpoint e = elim e.scheme_hint [
  | none ↦ authority e
  | some s ↦ proxy_scheme_name s ++ (lit "://" ++ authority e)
]

pub data ProxyEntry : Type 0 where
  use_endpoint : ProxyEndpoint → ProxyEntry
  disabled : ProxyEntry
  unusable : RejectedValue → ProxyEntry

unfoldable pub endpoint : ProxyEntry → Option ProxyEndpoint
endpoint (use_endpoint e) = some e
endpoint disabled = none
endpoint (unusable r) = none

unfoldable pub is_disabled : ProxyEntry → Bool
is_disabled disabled = true
is_disabled _ = false

unfoldable pub entry_rejected : ProxyEntry → Option RejectedValue
entry_rejected (unusable r) = some r
entry_rejected _ = none

module _ ⦃crates : Crates⦄ where
  parse_bracketed : Text → Result Reason Host
  parse_bracketed inner = elim (parse_ipv6 inner) [
    | some a ↦ ok (ipv6 a)
    | none ↦ err (invalid_ipv6 (quote_if_not_credential_shaped inner))
  ]

  parse_unbracketed : Text → Result Reason Host
  parse_unbracketed text = elim (parse_ipv6 text) [
    | some a ↦ ok (ipv6 a)
    | none ↦ ok_or (invalid_host (quote_if_not_credential_shaped text)) (crates.host_parse text)
  ]

  unfoldable pub parse_host : Text → Result Reason Host
  unfolding parse_bracketed parse_unbracketed
  parse_host input =
      let text = trim_with is_whitespace input in
      if is_nil text
      then err missing_host
      else elim (and_then (strip_prefix (lit "[") text) (λ r. strip_suffix (lit "]") r)) [
        | some inner ↦ parse_bracketed inner
        | none ↦ parse_unbracketed text
      ]

-- `request_host_ref`: a URL with an empty host has no destination.
abbrev named_host : Host → Option Host
named_host (domain []) = none
named_host h = some h

unfoldable pub request_host : Url → Option Host
request_host url = and_then url.host named_host

unfoldable pub has_request_host : Url → Bool
unfolding request_host
has_request_host url = is_some (request_host url)
