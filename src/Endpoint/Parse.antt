-- ===== src/Endpoint/Parse.antt =====
-- `ProxyEndpoint::parse` and `parse_userinfo`.
pub mod Bounds
pub mod Credentials
use proxy_watch.Auth.{ProxyAuth, from_username}
use proxy_watch.Auth
use proxy_watch.Crates.{Host, Crates}
use proxy_watch.Endpoint.Base.{ProxyEndpoint, parse_host}
use proxy_watch.Error.{Error, unsupported_proxy_scheme, proxy_server}
use proxy_watch.Prelude.{
  ℕ, Bool, ◌&&◌, ◌||◌, not, Option, none, some, ◌==◌, ltb, if◌then◌else◌, is_nil, is_some, length,
  map_option, or_option, unwrap_or,
}
use proxy_watch.Prelude.Result.{Result, ok, err, ◌>>=◌, map_err}
use proxy_watch.Reason.{empty_address, at_after_path, not_text, missing_host, empty_port}
use proxy_watch.Scheme.{ProxyScheme, proxy_scheme_from_str, scheme_port}
use proxy_watch.Text.{
  Text, lit, lower, is_whitespace, has, split_at, split_once, rsplit_once, trim_with, find_text,
}
use proxy_watch.Util.HostPort.{split_host_port}
use proxy_watch.Util.Percent.{percent_decode}
use proxy_watch.Util.Redact.{redact_offending_token}

unfoldable pub parse_userinfo : Text → ProxyAuth
parse_userinfo userinfo = elim (split_once b':' userinfo) [
  | some r ↦ Auth.new (percent_decode r.0) (some (percent_decode r.1))
  | none ↦ from_username (percent_decode userinfo)
]

-- The `scheme://` in front, if there is one, and the rest.
parse_scheme : Text → Result Error (Option ProxyScheme × Text)
parse_scheme text = elim (find_text (lit "://") text) [
  | none ↦ ok (none, text)
  | some r ↦ elim (proxy_scheme_from_str r.0) [
    | some s ↦ ok (some s, r.1)
    | none ↦
        err
          (unsupported_proxy_scheme (redact_offending_token (lower (trim_with is_whitespace r.0))))
  ]
]

abbrev ends_authority : ℕ → Bool
ends_authority c = c == b'/' || c == b'?' || c == b'#'

-- The authority, and the path, query and fragment that are dropped.
unfoldable pub cut_path : Text → Text × Text
cut_path rest = elim (split_at ends_authority rest) [ none ↦ (rest, lit "") | some r ↦ r ]

-- The tests on the two parts of the cut; what passes is the authority.
check_parts : Text → Text × Text → Result Error Text
check_parts input cut =
    if has b'@' cut.1
    then err (proxy_server input at_after_path)
    else if has 0xfffd cut.0
    then err (proxy_server input not_text)
    else ok cut.0

-- The userinfo before the last at-sign, and what is after it.
unfoldable pub cut_userinfo : Text → Option ProxyAuth × Text
unfolding parse_userinfo
cut_userinfo rest = elim (rsplit_once b'@' rest) [
  | none ↦ (none, rest)
  | some r ↦ (some (parse_userinfo r.0), r.1)
]

module _ ⦃crates : Crates⦄ where
  -- The part after the at-sign. The flag tells whether a colon was written with no port after it.
  parse_host_port : Text → Text → Result Error (Host × Option ℕ × Bool)
  parse_host_port input host_port =
      if is_nil host_port then err (proxy_server input missing_host) else do
        parts ← map_err (proxy_server input) (split_host_port host_port)
        host ← map_err (proxy_server input) (parse_host parts.0)
        ok (host, parts.1, not (is_some parts.1) && ltb (length parts.0) (length host_port))

  unfoldable pub parse_endpoint : Text → ℕ → Result Error ProxyEndpoint
  unfolding parse_scheme cut_path check_parts cut_userinfo parse_host_port
  parse_endpoint input default_port =
      let trimmed = trim_with is_whitespace input in
      if is_nil trimmed then err (proxy_server input empty_address) else do
        s ← parse_scheme trimmed
        checked ← check_parts input (cut_path s.1)
        let user = cut_userinfo checked
        parts ← parse_host_port input user.1
        if parts.2
            then err (proxy_server input empty_port)
            else ok (record {
              scheme_hint = s.0;
              host = parts.0;
              port = unwrap_or (or_option parts.1 (map_option scheme_port s.0)) default_port;
              auth = user.0;
            })
