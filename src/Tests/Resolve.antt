-- ===== src/Tests/Resolve.antt =====
-- From a URL to its steps on small inputs.
use proxy_watch.Bypass.Rules.{matches_url, verdict_ops}
use proxy_watch.Endpoint.{request_host, has_request_host}
use proxy_watch.Mode.{entry_for}
use proxy_watch.Mode.Lookup.{is_live}
use proxy_watch.Mode.Table.{get}
use proxy_watch.Prelude.{true, false, ◌||◌, none, some, [], ◌∷◌, ◌≡◌, inr, refl}
use proxy_watch.Prelude.Result.{ok}
use proxy_watch.Resolve.{
  http_step, request_scheme, is_websocket, resolve, resolve_with_pac_using, go_direct,
  from_endpoint, step_endpoint,
}
use proxy_watch.Resolve.Routes.{IsProxied, resolve-endpoint, resolve_with_pac-resolve}
use proxy_watch.Scheme.{Scheme}
use proxy_watch.Tests.Data.{
  toy_crates, desktop_config, two_slots, two_slots_mode, local_rules, lost, proxy_at, request,
}
use proxy_watch.Text.{text_ops}

secure_step :
    resolve desktop_config (request "https" "example.org") ≡ ok (http_step (proxy_at "secure") ∷ [])
unfolding resolve verdict_ops matches_url request_host has_request_host entry_for request_scheme
    from_endpoint
secure_step = refl

secure_endpoint : step_endpoint (http_step (proxy_at "secure")) ≡ some (proxy_at "secure")
unfolding step_endpoint
secure_endpoint = refl

resolve-endpoint_example :
    IsProxied two_slots_mode (request "https" "example.org") (proxy_at "secure")
resolve-endpoint_example =
    resolve-endpoint desktop_config (request "https" "example.org") (http_step (proxy_at "secure"))
      (proxy_at "secure") secure_step secure_endpoint

https_request : is_websocket (request "https" "example.org").scheme ≡ false
unfolding text_ops
https_request = refl

https_live :
    (is_live (get two_slots (request_scheme (request "https" "example.org").scheme))
      || is_live (get two_slots Scheme.all))
    ≡ true
unfolding text_ops request_scheme
https_live = refl

resolve_with_pac-resolve_example :
    resolve_with_pac_using desktop_config (request "http" "example.org") none (λ t. go_direct)
    ≡ resolve desktop_config (request "http" "example.org")
resolve_with_pac-resolve_example =
    resolve_with_pac-resolve desktop_config (request "http" "example.org") none (λ t. go_direct)
      (inr (two_slots, local_rules, lost ∷ [], refl))
