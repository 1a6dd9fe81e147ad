-- ===== src/Resolve/Schemes.antt =====
-- The scheme that a step writes into its URL.
use proxy_watch.Endpoint.{ProxyEndpoint}
use proxy_watch.Prelude.{Option, none, some, ◌≡◌, refl, unwrap_or}
use proxy_watch.Resolve.{from_endpoint, url_scheme, step_scheme}
use proxy_watch.Scheme.{ProxyScheme, proxy_scheme_from_str}
use proxy_watch.Text.{text_ops}

reads_back :
    (hint : Option ProxyScheme) (e : ProxyEndpoint)
    → e.scheme_hint ≡ hint
    → proxy_scheme_from_str (url_scheme (from_endpoint e) e)
      ≡ some (unwrap_or hint ProxyScheme.http)
unfolding proxy_scheme_from_str url_scheme from_endpoint step_scheme text_ops
reads_back none e h = rw (from_endpoint, url_scheme, h) refl
reads_back (some ProxyScheme.http) e h = rw (from_endpoint, url_scheme, h) refl
reads_back (some ProxyScheme.https) e h = rw (from_endpoint, url_scheme, h) refl
reads_back (some ProxyScheme.socks4) e h = rw (from_endpoint, url_scheme, h) refl
reads_back (some ProxyScheme.socks4a) e h = rw (from_endpoint, url_scheme, h) refl
reads_back (some ProxyScheme.socks5) e h = rw (from_endpoint, url_scheme, h) refl
reads_back (some ProxyScheme.socks5h) e h = rw (from_endpoint, url_scheme, h) refl

-- The scheme in the URL of an endpoint's step is read back as the endpoint's own hint, or as HTTP
-- where it has none.
pub proxy_scheme_from_str-url_scheme :
    (e : ProxyEndpoint)
    → proxy_scheme_from_str (url_scheme (from_endpoint e) e)
      ≡ some (unwrap_or e.scheme_hint ProxyScheme.http)
proxy_scheme_from_str-url_scheme e = reads_back e.scheme_hint e refl
