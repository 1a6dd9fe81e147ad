-- ===== src/Bypass/Match.antt =====
-- `HostPattern::matches`: an entry meets a destination. `ImplicitBypass` is the set of the
-- destinations that go direct with no entry naming them.
use Prim.Native.Nat.{◌-◌}
use proxy_watch.Bypass.Pattern.{
  HostPattern, all_hosts, cidr, exact, suffix, wildcard, local, subtract_implicit, host_key,
  host_ip,
}
use proxy_watch.Crates.{Host, IpNet, net4, net6, Crates}
use proxy_watch.Prelude.{
  ℕ, Bool, true, false, not, ◌&&◌, ◌||◌, Option, none, some, ◌==◌, leb, if◌then◌else◌, any, length,
  is_nil, is_some, map_option, unwrap_or,
}
use proxy_watch.Text.{
  Text, lit, lower, between, has, text_eq, strip_prefix, ends_with, without_suffix,
}
use proxy_watch.Text.Address.{
  IpAddr, v4, v6, ip_eq, to_ipv4_mapped, is_loopback_ip, is_link_local_ip,
}
use proxy_watch.Util.Glob.{glob_match}
use proxy_watch.Util.Redact.{take_chars}

unfoldable pub port_matches : Option ℕ → Option ℕ → Bool
port_matches none port = true
port_matches (some expected) none = false
port_matches (some expected) (some p) = p == expected

unfoldable pub reduce_mapped : IpAddr → IpAddr
reduce_mapped (v4 a) = v4 a
reduce_mapped (v6 a) = elim (to_ipv4_mapped a) [ some b ↦ v4 b | none ↦ v6 a ]

-- `Ipv4Net::new` on a prefix of at most 32 bits, which `v6.prefix_len() - 96` is.
unfoldable pub reduce_mapped_net : IpNet → IpNet
reduce_mapped_net (net4 a p) = net4 a p
reduce_mapped_net (net6 a p) = elim (to_ipv4_mapped a) [
  | none ↦ net6 a p
  | some b ↦ if leb 96 p && leb p 128 then net4 b (p - 96) else net6 a p
]

abbrev reduce_if : Bool → IpAddr → IpAddr
reduce_if b ip = if b then reduce_mapped ip else ip

unfoldable pub is_simple_host_name : Text → Option IpAddr → Bool
is_simple_host_name host_text ip = not (is_some ip) && not (has b'.' host_text)

-- `strip_suffix_ascii_case`: the text before a suffix that is compared with its case folded.
unfoldable pub strip_suffix_ignore_case : Text → Text → Option Text
unfolding take_chars
strip_suffix_ignore_case text s =
    if ends_with (lower s) (lower text)
    then some (take_chars (length text - length s) text)
    else none

abbrev is_upper : ℕ → Bool
is_upper c = between b'A' b'Z' c

module _ ⦃crates : Crates⦄ where
  abbrev net_hit : IpNet → Option IpAddr → Bool
  net_hit net none = false
  net_hit net (some ip) = crates.net_contains net ip

  -- Addresses compare as addresses, and all else as text.
  exact_hit : Host → Text → Option IpAddr → Bool → Bool
  exact_hit host host_text ip reduce = elim (map_option (reduce_if reduce) (host_ip host)) [
    | some rule_ip ↦ elim ip [
      | some destination ↦ ip_eq rule_ip destination
      | none ↦ text_eq host_text (host_key host)
    ]
    | none ↦ text_eq host_text (host_key host)
  ]

  suffix_hit : Text → Bool → Text → Bool
  suffix_hit s match_self host_text =
      let bare = unwrap_or (strip_prefix (lit ".") s) s in
      if is_nil bare then false else elim (strip_suffix_ignore_case host_text bare) [
        | none ↦ false
        | some rest ↦ ends_with (lit ".") rest || match_self && is_nil rest
      ]

  wildcard_hit : Text → Text → Bool
  wildcard_hit pattern host_text =
      glob_match (if any is_upper pattern then lower pattern else pattern) host_text

  unfoldable pub pattern_matches : HostPattern → Text → Option IpAddr → Option ℕ → Bool → Bool
  unfolding exact_hit suffix_hit wildcard_hit
  pattern_matches all_hosts host_text ip port reduce = true
  pattern_matches (cidr net) host_text ip port reduce =
      net_hit (if reduce then reduce_mapped_net net else net) ip
  pattern_matches (exact host rule_port) host_text ip port reduce =
      exact_hit host host_text ip reduce && port_matches rule_port port
  pattern_matches (suffix s match_self rule_port) host_text ip port reduce =
      suffix_hit s match_self host_text && port_matches rule_port port
  pattern_matches (wildcard pattern rule_port) host_text ip port reduce =
      wildcard_hit pattern host_text && port_matches rule_port port
  pattern_matches local host_text ip port reduce = is_simple_host_name host_text ip
  pattern_matches subtract_implicit host_text ip port reduce = false

-- `ImplicitBypass`; `nothing` is the source's `Empty`.
pub data ImplicitBypass : Type 0 where
  broad win_inet cf_network nothing : ImplicitBypass

unfoldable pub is_loopback : Text → Option IpAddr → Bool
is_loopback host_text (some ip) = is_loopback_ip ip
is_loopback host_text none =
    let name = without_suffix (lit ".") host_text in
    text_eq name (lit "localhost")
    || text_eq name (lit "loopback")
    || ends_with (lit ".localhost") name

-- 127.0.0.1 and ::1 alone.
unfoldable pub is_loopback_address : IpAddr → Bool
is_loopback_address (v4 a) = a == 0x7f000001
is_loopback_address (v6 a) = a == 1

unfoldable pub covers : ImplicitBypass → Text → Option IpAddr → Bool
covers broad host_text ip = is_loopback host_text (map_option reduce_mapped ip)
covers win_inet host_text (some ip) = is_loopback_address ip || is_link_local_ip ip
covers win_inet host_text none =
    text_eq host_text (lit "localhost") || text_eq host_text (lit "loopback")
covers cf_network host_text (some ip) = is_loopback_address ip
covers cf_network host_text none = text_eq host_text (lit "localhost")
covers nothing host_text ip = false
