-- ===== src/Tests/Bypass.antt =====
-- Bypass rules on small inputs.
use proxy_watch.Bypass.Pattern.{host_key, subtract_implicit}
use proxy_watch.Bypass.Rules.{matches, dedup_patterns, skips, verdict_ops}
use proxy_watch.Bypass.Rules.Dedup.{matches-dedup_patterns}
use proxy_watch.Bypass.Rules.Verdicts.{
  matches-last_act, matches-no_act, settled, act_of, default_verdict, switched,
}
use proxy_watch.Prelude.{true, false, none, some, [], ◌∷◌, ◌++◌, ◌≡◌, ◌≢◌, refl}
use proxy_watch.Tests.Data.{toy_crates, host_at, lost, corp, local_rules, inclusion}

corp_matches : matches local_rules (host_at "git.corp") (some 443) ≡ true
unfolding verdict_ops
corp_matches = refl

inclusion_proxies : matches inclusion (host_at "git.corp") (some 443) ≡ false
unfolding verdict_ops
inclusion_proxies = refl

-- The token takes loopback back to the proxy: the last entry that acts on it is the token.
loopback_proxied : matches local_rules (host_at "localhost") none ≡ false
unfolding verdict_ops
loopback_proxied = refl

matches-dedup_patterns_example :
    matches (dedup_patterns local_rules) (host_at "localhost") none
    ≡ matches local_rules (host_at "localhost") none
matches-dedup_patterns_example = matches-dedup_patterns local_rules (host_at "localhost") none

git_named : host_key (host_at "git.corp") ≢ []
unfolding verdict_ops
git_named h = cc h

git_not_switched : switched local_rules (host_at "git.corp") none ≡ false
unfolding verdict_ops
git_not_switched = refl

git_bypassed : act_of local_rules (host_at "git.corp") none corp ≢ skips
unfolding verdict_ops
git_bypassed h = cc h

matches-last_act_example :
    matches local_rules (host_at "git.corp") none
    ≡ settled local_rules
        (host_at "git.corp")
        none
        (act_of local_rules (host_at "git.corp") none corp)
matches-last_act_example =
    matches-last_act local_rules (host_at "git.corp") none (corp ∷ subtract_implicit ∷ []) corp []
      refl git_named git_not_switched git_bypassed tt

web_named : host_key (host_at "example.org") ≢ []
unfolding verdict_ops
web_named h = cc h

web_not_switched : switched inclusion (host_at "example.org") none ≡ false
unfolding verdict_ops
web_not_switched = refl

web_corp_skips : act_of inclusion (host_at "example.org") none corp ≡ skips
unfolding verdict_ops
web_corp_skips = refl

web_token_skips : act_of inclusion (host_at "example.org") none subtract_implicit ≡ skips
unfolding verdict_ops
web_token_skips = refl

matches-no_act_example :
    matches inclusion (host_at "example.org") none
    ≡ default_verdict inclusion (host_at "example.org") none
matches-no_act_example =
    matches-no_act inclusion (host_at "example.org") none web_named web_not_switched
      (web_corp_skips, (web_token_skips, (web_corp_skips, tt)))

rejected_bypassed :
    matches (record local_rules { rejected = [] ++ lost ∷ [] }) (host_at "git.corp") none ≡ true
unfolding verdict_ops
rejected_bypassed = refl
