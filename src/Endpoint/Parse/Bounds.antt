-- ===== src/Endpoint/Parse/Bounds.antt =====
-- The port of a parsed endpoint.
use proxy_watch.Crates.{Crates, Host}
use proxy_watch.Endpoint.Base.{ProxyEndpoint, parse_host}
use proxy_watch.Endpoint.Parse.{
  parse_scheme, cut_path, check_parts, cut_userinfo, parse_host_port, parse_endpoint,
}
use proxy_watch.Error.{proxy_server}
use proxy_watch.Prelude.{
  ℕ, ◌<◌, Bool, Option, none, some, ◌≡◌, inl, inr, arith, is_nil, Bool-cases, unwrap_or, or_option,
  map_option, subst,
}
use proxy_watch.Prelude.Result.{Result, ok, err, >>=-eq-ok, map_err}
use proxy_watch.Reason.{Reason}
use proxy_watch.Scheme.{ProxyScheme, scheme_port}
use proxy_watch.Text.{Text, is_whitespace, trim_with}
use proxy_watch.Util.HostPort.{u16_mod, split_host_port}
use proxy_watch.Util.HostPort.Bounds.{IsPort, split_host_port-IsPort}

map_err-eq-ok :
    (r : Result Reason (Text × Option ℕ)) (input : Text) (x : Text × Option ℕ)
    → map_err (proxy_server input) r ≡ ok x
    → r ≡ ok x
map_err-eq-ok (ok y) input x h = cc h
map_err-eq-ok (err e) input x h = absurd (cc h)

scheme_port-lt : (s : ProxyScheme) → scheme_port s < u16_mod
unfolding scheme_port
scheme_port-lt s = ground arith

port-lt :
    (o : Option ℕ) (s : Option ProxyScheme) (d : ℕ)
    → IsPort o
    → d < u16_mod
    → unwrap_or (or_option o (map_option scheme_port s)) d < u16_mod
port-lt (some p) s d h k = h
port-lt none (some s) d h k = scheme_port-lt s
port-lt none none d h k = k

module _ ⦃crates : Crates⦄ where
  parse_host_port-IsPort :
      (input host_port : Text) (parts : Host × Option ℕ × Bool)
      → parse_host_port input host_port ≡ ok parts
      → IsPort parts.1
  unfolding parse_host_port
  parse_host_port-IsPort input host_port parts h = elim (Bool-cases (is_nil host_port)) [
    | inl missing ↦ absurd (cc (rw missing at h))
    | inr present ↦
        let a =
          >>=-eq-ok (map_err (proxy_server input) (split_host_port host_port)) _
            (rw present at h) in
        let b = >>=-eq-ok (map_err (proxy_server input) (parse_host a.0.0)) _ a.2 in
        let e : a.0.1 ≡ parts.1 = cc b.2 in
        subst IsPort e (
          split_host_port-IsPort host_port a.0
            (map_err-eq-ok (split_host_port host_port) input a.0 a.1))
  ]

  -- A parsed endpoint has a port below 2 ^ 16, where the default port is.
  pub parse_endpoint-port :
      (input : Text) (default_port : ℕ) (e : ProxyEndpoint)
      → parse_endpoint input default_port ≡ ok e
      → default_port < u16_mod
      → e.port < u16_mod
  unfolding parse_endpoint
  parse_endpoint-port input default_port e h k =
      elim (Bool-cases (is_nil (trim_with is_whitespace input))) [
        | inl blank ↦ absurd (cc (rw blank at h))
        | inr present ↦
            let trimmed = trim_with is_whitespace input in
            let s = >>=-eq-ok (parse_scheme trimmed) _ (rw present at h) in
            let c = >>=-eq-ok (check_parts input (cut_path s.0.1)) _ s.2 in
            let p = >>=-eq-ok (parse_host_port input (cut_userinfo c.0).1) _ c.2 in
            elim (Bool-cases p.0.2) [
              | inl empty ↦ absurd (cc (rw empty at p.2))
              | inr full ↦
                  let eq : unwrap_or (or_option p.0.1 (map_option scheme_port s.0.0)) default_port
                      ≡ e.port =
                    cc (rw full at p.2) in
                  subst (λ n. n < u16_mod) eq
                    (port-lt p.0.1 s.0.0 default_port
                      (parse_host_port-IsPort input (cut_userinfo c.0).1 p.0 p.1) k)
            ]
      ]
