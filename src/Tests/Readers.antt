-- ===== src/Tests/Readers.antt =====
-- The readers of entries, lists, endpoints and variables on small inputs.
use proxy_watch.Auth
use proxy_watch.Endpoint.{parse_userinfo}
use proxy_watch.Endpoint.Parse.Credentials.{parse_endpoint-auth, behind_scheme}
use proxy_watch.Prelude.{some}
use proxy_watch.Resolve.{url_scheme, from_endpoint}
use proxy_watch.Resolve.Schemes.{proxy_scheme_from_str-url_scheme}
use proxy_watch.Scheme.{ProxyScheme, proxy_scheme_from_str}
use proxy_watch.Util.Percent.{percent_decode}
use proxy_watch.Bypass.Lists.{bypass_entries_in}
use proxy_watch.Bypass.Lists.Reading.{bypass_entries_in_lem, listed, refused}
use proxy_watch.Bypass.Parse.{is_rejecting_text}
use proxy_watch.Bypass.Pattern.{trim_entry, kde, windows}
use proxy_watch.Bypass.Rules.{matches}
use proxy_watch.Config.Cgi.{from_vars-cgi, has_any_case}
use proxy_watch.Config.Env.{Vars, in_cgi, from_vars}
use proxy_watch.Crates.{Host}
use proxy_watch.Endpoint.{ProxyEndpoint, parse_endpoint, parse_host}
use proxy_watch.Error.{Error, cgi_http_proxy}
use proxy_watch.Prelude.{ℕ, true, false, not, ◌&&◌, Option, none, List, [], ◌∷◌, ◌≡◌, refl, is_some}
use proxy_watch.Prelude.Result.{ok, err, is_ok}
use proxy_watch.Tests.Data.{toy_crates, host_at}
use proxy_watch.Text.{Text, lit, has, is_whitespace, trim_with, eq_ignore_case, text_ops}
use proxy_watch.Util.HostPort.{split_host_port}

credentials : is_rejecting_text (trim_entry kde (lit " u:p@h ")) ≡ true
unfolding trim_entry text_ops
credentials = refl

abbrev entries : List Text
entries = lit "*.corp" ∷ lit "u@corp" ∷ lit "*.corp" ∷ []

bypass_entries_in_lem_example :
    ((host : Host) (port : Option ℕ)
      → matches (bypass_entries_in entries windows) host port
        ≡ matches (listed windows entries) host port)
    × ((bypass_entries_in entries windows).rejected ≡ refused windows entries)
bypass_entries_in_lem_example = bypass_entries_in_lem windows entries refl

abbrev parsed_proxy : ProxyEndpoint
parsed_proxy = record { scheme_hint = none; host = host_at "a"; port = 99; auth = none }

proxy_parsed : parse_endpoint (lit "a:99/x") 80 ≡ ok parsed_proxy
unfolding parse_endpoint text_ops split_host_port parse_host
proxy_parsed = refl

abbrev cgi_vars : Vars
cgi_vars = (lit "REQUEST_METHOD", lit "GET") ∷ (lit "HTTP_PROXY", lit "evil:80") ∷ []

from_vars-cgi_example :
    (is_ok (from_vars false 0 cgi_vars)
      ≡ not (in_cgi false cgi_vars && has_any_case (lit "http_proxy") cgi_vars))
    × ((e : Error)
        → from_vars false 0 cgi_vars ≡ err e
        → (name : Text) × (e ≡ cgi_http_proxy name)
          × (eq_ignore_case name (lit "http_proxy") ≡ true))
from_vars-cgi_example = from_vars-cgi false 0 cgi_vars

abbrev secret_proxy : ProxyEndpoint
secret_proxy = record {
  scheme_hint = none;
  host = host_at "a";
  port = 99;
  auth = some (Auth.new (lit "u") (some (lit "p")));
}

secret_parsed : parse_endpoint (lit "u:p@a:99/x") 80 ≡ ok secret_proxy
unfolding parse_endpoint text_ops split_host_port parse_host parse_userinfo percent_decode
secret_parsed = refl

proxy_scheme_from_str-url_scheme_example :
    proxy_scheme_from_str (url_scheme (from_endpoint secret_proxy) secret_proxy)
    ≡ some ProxyScheme.http
proxy_scheme_from_str-url_scheme_example = proxy_scheme_from_str-url_scheme secret_proxy

parse_endpoint-auth_example :
    is_some secret_proxy.auth
    ≡ has b'@' (behind_scheme (trim_with is_whitespace (lit "u:p@a:99/x")))
parse_endpoint-auth_example = parse_endpoint-auth (lit "u:p@a:99/x") 80 secret_proxy secret_parsed
