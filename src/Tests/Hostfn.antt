-- ===== src/Tests/Hostfn.antt =====
-- The functions of a script on small inputs.
use proxy_watch.Pac.Hostfn.{sh_exp_match, dns_resolve, ask_parent, is_internal}
use proxy_watch.Pac.Hostfn.Resolution.{dns_resolve-allowed}
use proxy_watch.Pac.Hostfn.Shell.{sh_exp_match-reading}
use proxy_watch.Pac.Policy
use proxy_watch.Pac.Policy.{PacPolicy}
use proxy_watch.Pac.Wildcard.Reading.{wildcard_reading}
use proxy_watch.Prelude.{true, not, ◌||◌, Option, none, some, List, [], ◌∷◌, ◌≡◌, refl, arith}
use proxy_watch.Tests.Data.{toy_crates}
use proxy_watch.Endpoint.{parse_host}
use proxy_watch.Text.{Text, lit, trim_end, strip_prefix, is_whitespace}
use proxy_watch.Text.Address.{IpAddr, v4, parse_ipv6, is_loopback_ip, is_link_local_ip}
use proxy_watch.Util.HostPort.{strip_brackets}

sh_exp_match-reading_example :
    sh_exp_match (lit "ab.corp") (lit "?b*") ≡ wildcard_reading (lit "?b*") (lit "ab.corp")
sh_exp_match-reading_example = sh_exp_match-reading (lit "ab.corp") (lit "?b*") (omega arith)

abbrev resolving : PacPolicy
resolving = record Policy.new { resolve_dns = true }

-- A resolver that knows a loopback address and a public one for every name, and one that knows none.
abbrev two_answers : Text → Option (List IpAddr)
two_answers name = some (v4 0x7f000001 ∷ v4 0x08080808 ∷ [])

abbrev no_answers : Text → Option (List IpAddr)
no_answers name = none

-- A worker, whose own policy resolves nothing.
dns_resolve-allowed_example :
    (resolving.resolve_dns ≡ true)
    × ((resolving.allow_internal_addresses || not (is_internal (v4 0x08080808))) ≡ true)
unfolding dns_resolve ask_parent parse_host trim_end parse_ipv6 strip_brackets strip_prefix
    is_whitespace is_loopback_ip is_link_local_ip
dns_resolve-allowed_example =
    dns_resolve-allowed two_answers no_answers (some resolving) (lit "intranet") Policy.new
      0x08080808 refl refl
