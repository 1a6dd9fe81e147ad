-- ===== src/Tests/Android.antt =====
-- Default proxies of Android.
use proxy_watch.Android.{info_endpoint, matches_no_host}
use proxy_watch.Prelude.{List, ◌≡◌, true, false, [], ◌∷◌, refl}
use proxy_watch.Prelude.Integer.{negsuc}
use proxy_watch.Prelude.Result.{err}
use proxy_watch.Tests.Data.{toy_crates}
use proxy_watch.Dict.Values.{show_number}
use proxy_watch.Text.Number.{show}
use proxy_watch.Text.{Text, lit, is_whitespace, strip_prefix, strip_suffix}

-- Two entries in one element, a repeat, and one with an inner star.
abbrev exclusion_list : List Text
exclusion_list = lit "*.corp,local" ∷ lit "local" ∷ lit "a*b" ∷ []

odd_port-failed : info_endpoint (lit "proxy") (negsuc 0) 80 ≡ err (lit "port", lit "-1")
unfolding info_endpoint show_number show
odd_port-failed = refl

inner_star : matches_no_host (lit "a*b") ≡ true
unfolding matches_no_host strip_prefix strip_suffix is_whitespace
inner_star = refl

end_star : matches_no_host (lit "*.corp") ≡ false
unfolding matches_no_host strip_prefix strip_suffix is_whitespace
end_star = refl
