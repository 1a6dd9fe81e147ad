-- ===== src/Tests/Selected.antt =====
-- What a selector of Android is asked and answers.
use proxy_watch.Android.Selected.{SelectedProxy, java_rest, java_uri_text, steps_from_selected}
use proxy_watch.Android.Selected.Chosen.{steps_from_selected_lem, usable, first_error}
use proxy_watch.Android.Selected.Escapes.{java_rest_lem, is_java_uri}
use proxy_watch.Error.{invalid_result}
use proxy_watch.Pac.Chain.{max_chain}
use proxy_watch.Pac.Outcome.{fresh, finish_steps}
use proxy_watch.Prelude.{true, some, List, [], ◌∷◌, ◌≡◌, unwrap_or, refl}
use proxy_watch.Prelude.Integer.{pos, negsuc}
use proxy_watch.Prelude.Result.{ok_or}
use proxy_watch.Prelude.Take.{take}
use proxy_watch.Tests.Data.{toy_crates}
use proxy_watch.Text.{lit}
use proxy_watch.Util.Percent.{decode_bytes}

lone_percent :
    java_uri_text (lit "http://h") (lit "/a|b?100%&c=%20") ≡ lit "http://h/a%7Cb?100%25&c=%20"
unfolding java_uri_text
lone_percent = refl

java_rest_lem_example :
    (is_java_uri (java_rest (lit "/a{1}?100%&c=%20")) ≡ true)
    × (decode_bytes (java_rest (lit "/a{1}?100%&c=%20")) ≡ decode_bytes (lit "/a{1}?100%&c=%20"))
java_rest_lem_example = java_rest_lem (lit "/a{1}?100%&c=%20") refl

-- An unusable port, then a proxy twice.
abbrev answered : List SelectedProxy
answered =
    record { kind = lit "HTTP"; host = some (lit "p"); port = negsuc 0 }
    ∷ record { kind = lit "SOCKS"; host = some (lit "s"); port = pos 1080 }
    ∷ record { kind = lit "SOCKS"; host = some (lit "s"); port = pos 1080 }
    ∷ []

steps_from_selected_lem_example :
    steps_from_selected answered
    ≡ ok_or
        (unwrap_or
          (first_error answered)
          (invalid_result (lit "ProxySelector.select returned no proxy")))
        (finish_steps (take max_chain (fresh [] (usable answered))))
steps_from_selected_lem_example = steps_from_selected_lem answered
