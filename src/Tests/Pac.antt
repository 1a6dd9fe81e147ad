-- ===== src/Tests/Pac.antt =====
-- PAC results on small inputs.
use proxy_watch.Error.{invalid_result}
use proxy_watch.Pac.Chain.{
  max_chain, parse_find_proxy_result, is_result_separator, parse_candidate, finish, push, is_full,
  keyword, step_eq,
}
use proxy_watch.Endpoint.{ProxyEndpoint, parse_endpoint, parse_host}
use proxy_watch.Util.HostPort.{split_host_port}
use proxy_watch.Scheme.{ProxyScheme, scheme_port}
use proxy_watch.Prelude.{All, some, none}
use proxy_watch.Pac.Chain.{candidate_endpoint}
use proxy_watch.Pac.Chain.Credentials.{IsClean, parse_find_proxy_result-IsClean}
use proxy_watch.Tests.Data.{host_at}
use proxy_watch.Resolve.{http_step, from_endpoint}
use proxy_watch.Pac.Outcome.{fresh, parsed, finish_steps, parse_find_proxy_result_lem}
use proxy_watch.Prelude.{[], ◌∷◌, ◌≡◌, refl}
use proxy_watch.Prelude.Take.{take}
use proxy_watch.Prelude.Result.{ok, ok_or}
use proxy_watch.Resolve.{direct_step}
use proxy_watch.Tests.Data.{toy_crates}
use proxy_watch.Text.{lit, split, text_ops}

two_direct : parse_find_proxy_result (lit "DIRECT; junk; direct") ≡ ok (direct_step ∷ [])
unfolding parse_find_proxy_result parse_candidate keyword text_ops finish push is_full step_eq
two_direct = refl

parse_find_proxy_result_lem_example :
    parse_find_proxy_result (lit "DIRECT; junk; direct")
    ≡ ok_or (invalid_result (lit "DIRECT; junk; direct")) (
        finish_steps (
          take max_chain
            (fresh [] (parsed (split is_result_separator (lit "DIRECT; junk; direct"))))))
parse_find_proxy_result_lem_example = parse_find_proxy_result_lem (lit "DIRECT; junk; direct")

abbrev clean_proxy : ProxyEndpoint
clean_proxy = record {
  scheme_hint = some ProxyScheme.http;
  host = host_at "a";
  port = 80;
  auth = none;
}

-- The credentials are dropped, and the port zero is replaced.
masked : parse_find_proxy_result (lit "PROXY u:p@a:0") ≡ ok (http_step clean_proxy ∷ [])
unfolding parse_find_proxy_result parse_candidate keyword text_ops finish push is_full step_eq
    candidate_endpoint from_endpoint parse_endpoint split_host_port parse_host scheme_port
masked = refl

parse_find_proxy_result-IsClean_example : All IsClean (http_step clean_proxy ∷ [])
parse_find_proxy_result-IsClean_example =
    parse_find_proxy_result-IsClean (lit "PROXY u:p@a:0") (http_step clean_proxy ∷ []) masked
