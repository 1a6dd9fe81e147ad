-- ===== src/Scheme.antt =====
-- src/endpoint.rs: request schemes and the protocols spoken to a proxy, with their names.
use proxy_watch.Prelude.{ℕ, Bool, true, false, Option, none, some, List, [], ◌∷◌, if◌then◌else◌}
use proxy_watch.Text.{Text, lit, lower, is_whitespace, text_eq, trim_with}

pub data Scheme : Type 0 where
  http https ftp socks all : Scheme

-- `Scheme::ALL`
abbrev pub schemes : List Scheme
schemes = Scheme.http ∷ Scheme.https ∷ Scheme.ftp ∷ Scheme.socks ∷ Scheme.all ∷ []

-- The derived `PartialEq`.
abbrev pub scheme_eq : Scheme → Scheme → Bool
scheme_eq Scheme.http Scheme.http = true
scheme_eq Scheme.https Scheme.https = true
scheme_eq Scheme.ftp Scheme.ftp = true
scheme_eq Scheme.socks Scheme.socks = true
scheme_eq Scheme.all Scheme.all = true
scheme_eq _ _ = false

unfoldable pub scheme_name : Scheme → Text
scheme_name Scheme.http = lit "http"
scheme_name Scheme.https = lit "https"
scheme_name Scheme.ftp = lit "ftp"
scheme_name Scheme.socks = lit "socks"
scheme_name Scheme.all = lit "all"

unfoldable pub scheme_from_name : Text → Option Scheme
scheme_from_name name =
    let n = lower (trim_with is_whitespace name) in
    if text_eq n (lit "http")
    then some Scheme.http
    else if text_eq n (lit "https")
    then some Scheme.https
    else if text_eq n (lit "ftp")
    then some Scheme.ftp
    else if text_eq n (lit "socks")
    then some Scheme.socks
    else if text_eq n (lit "all")
    then some Scheme.all
    else none

pub data ProxyScheme : Type 0 where
  http https socks4 socks4a socks5 socks5h : ProxyScheme

unfoldable pub proxy_scheme_name : ProxyScheme → Text
proxy_scheme_name ProxyScheme.http = lit "http"
proxy_scheme_name ProxyScheme.https = lit "https"
proxy_scheme_name ProxyScheme.socks4 = lit "socks4"
proxy_scheme_name ProxyScheme.socks4a = lit "socks4a"
proxy_scheme_name ProxyScheme.socks5 = lit "socks5"
proxy_scheme_name ProxyScheme.socks5h = lit "socks5h"

unfoldable pub scheme_port : ProxyScheme → ℕ
scheme_port ProxyScheme.http = 80
scheme_port ProxyScheme.https = 443
scheme_port _ = 1080

-- `ProxyScheme::from_str`; the error carries the redacted text, which `Endpoint` adds.
unfoldable pub proxy_scheme_from_str : Text → Option ProxyScheme
proxy_scheme_from_str s =
    let n = lower (trim_with is_whitespace s) in
    if text_eq n (lit "http")
    then some ProxyScheme.http
    else if text_eq n (lit "https")
    then some ProxyScheme.https
    else if text_eq n (lit "socks4")
    then some ProxyScheme.socks4
    else if text_eq n (lit "socks")
    then some ProxyScheme.socks5
    else if text_eq n (lit "socks5")
    then some ProxyScheme.socks5
    else if text_eq n (lit "socks4a")
    then some ProxyScheme.socks4a
    else if text_eq n (lit "socks5h")
    then some ProxyScheme.socks5h
    else none
