-- ===== src/Bypass/Rules.antt =====
-- `BypassRules`: the list of entries with its switches, the verdict on a destination, and how the
-- list is built. The proofs are in the modules below.
pub mod Walk
pub mod Dedup
pub mod Verdicts
use proxy_watch.Bypass.Match.{
  ImplicitBypass, broad, pattern_matches, covers, reduce_mapped, strip_suffix_ignore_case,
  is_loopback, port_matches,
}
use proxy_watch.Bypass.Parse.{parse_in}
use proxy_watch.Bypass.Pattern.{
  HostPattern, all_hosts, cidr, exact, suffix, wildcard, local, subtract_implicit, BypassDialect,
  suffixes, host_key, host_ip,
}
use proxy_watch.Crates.{Host, domain, ipv4, ipv6, IpNet, net4, net6, Url, Crates}
use proxy_watch.Diagnostic
use proxy_watch.Diagnostic.{RejectedValue, RejectionSource, invalid_bypass_pattern, bypass_list}
use proxy_watch.Endpoint.{parse_host, request_host}
use proxy_watch.Prelude.{
  ℕ, Bool, true, false, not, ◌&&◌, ◌||◌, Option, none, some, List, [], ◌∷◌, ◌++◌, ◌==◌, reverse,
  if◌then◌else◌, any, is_nil, is_some, map_option, and_then,
}
use proxy_watch.Prelude.Result.{Result, ok, err}
use proxy_watch.Text.{Text, lit, has, is_whitespace, text_eq, trim_with, without_suffix, text_ops}
use proxy_watch.Text.Address.{IpAddr}
use proxy_watch.Util.HostPort.{split_host_port}

pub record BypassRules : Type 0 where
  pub patterns : List HostPattern
  pub exclude_simple_hostnames : Bool
  pub reversed_exceptions : Bool
  pub rejected : List RejectedValue
  pub require_explicit_port : Bool
  pub implicit : ImplicitBypass
  pub ipv4_mapped_as_ipv4 : Bool
  pub strip_trailing_dot : Bool

abbrev pub new : BypassRules
new = record {
  patterns = [];
  exclude_simple_hostnames = false;
  reversed_exceptions = false;
  rejected = [];
  require_explicit_port = false;
  implicit = broad;
  ipv4_mapped_as_ipv4 = true;
  strip_trailing_dot = true;
}

abbrev pub is_subtract : HostPattern → Bool
is_subtract subtract_implicit = true
is_subtract _ = false

abbrev pub is_local : HostPattern → Bool
is_local local = true
is_local _ = false

unfoldable pub bypass_loopback : BypassRules → Bool
bypass_loopback r = not (any is_subtract r.patterns)

unfoldable pub excludes_simple_hostnames : BypassRules → Bool
excludes_simple_hostnames r = r.exclude_simple_hostnames || any is_local r.patterns

unfoldable pub is_empty : BypassRules → Bool
is_empty r = is_nil r.patterns && not r.exclude_simple_hostnames && not r.reversed_exceptions

-- The derived `PartialEq` of an entry.
abbrev host_eq : Host → Host → Bool
host_eq (domain a) (domain b) = text_eq a b
host_eq (ipv4 a) (ipv4 b) = a == b
host_eq (ipv6 a) (ipv6 b) = a == b
host_eq _ _ = false

abbrev net_eq : IpNet → IpNet → Bool
net_eq (net4 a p) (net4 b q) = a == b && p == q
net_eq (net6 a p) (net6 b q) = a == b && p == q
net_eq _ _ = false

abbrev port_eq : Option ℕ → Option ℕ → Bool
port_eq none none = true
port_eq (some a) (some b) = a == b
port_eq _ _ = false

abbrev bool_eq : Bool → Bool → Bool
bool_eq true b = b
bool_eq false b = not b

unfoldable pub pattern_eq : HostPattern → HostPattern → Bool
pattern_eq all_hosts all_hosts = true
pattern_eq (cidr a) (cidr b) = net_eq a b
pattern_eq (exact h p) (exact i q) = host_eq h i && port_eq p q
pattern_eq (suffix s m p) (suffix t n q) = text_eq s t && bool_eq m n && port_eq p q
pattern_eq (wildcard s p) (wildcard t q) = text_eq s t && port_eq p q
pattern_eq local local = true
pattern_eq subtract_implicit subtract_implicit = true
pattern_eq _ _ = false

-- The closure of `retain`, with the set of the entries seen since the last `<-loopback>`.
unfoldable pub dedup_from : List HostPattern → List HostPattern → List HostPattern
dedup_from seen [] = []
dedup_from seen (p ∷ ps) = elim (is_subtract p) [
  | true ↦ p ∷ dedup_from [] ps
  | false ↦ elim (any (pattern_eq p) seen) [
    | true ↦ dedup_from seen ps
    | false ↦ p ∷ dedup_from (p ∷ seen) ps
  ]
]

unfoldable pub dedup_patterns : BypassRules → BypassRules
unfolding dedup_from
dedup_patterns r = record r { patterns = dedup_from [] r.patterns }

unfoldable pub push_pattern : HostPattern → BypassRules → BypassRules
push_pattern p r = record r { patterns = r.patterns ++ p ∷ [] }

-- What an entry does for one destination: nothing, or it settles the verdict.
pub data Act : Type 0 where
  skips subtracts bypasses : Act

-- The loop over the entries from the last to the first, by what each of them does.
unfoldable pub walk : (HostPattern → Act) → Bool → Bool → Bool → List HostPattern → Bool
walk act unnamed named otherwise [] = otherwise
walk act unnamed named otherwise (p ∷ ps) = elim (act p) [
  | subtracts ↦ unnamed
  | bypasses ↦ named
  | skips ↦ walk act unnamed named otherwise ps
]

abbrev subtract_act : Bool → Act
subtract_act implicit = if implicit then subtracts else skips

abbrev hit_act : Bool → Act
hit_act hit = if hit then bypasses else skips

module _ ⦃crates : Crates⦄ where
  -- `<local>` is met by the text as written, every other entry by the text with its dot shed.
  unfoldable pub act_on : Bool → Text → Text → Option IpAddr → Option ℕ → Bool → HostPattern → Act
  act_on implicit text entry_text ip port reduce subtract_implicit = subtract_act implicit
  act_on implicit text entry_text ip port reduce local =
      hit_act (pattern_matches local text ip port reduce)
  act_on implicit text entry_text ip port reduce p =
      hit_act (pattern_matches p entry_text ip port reduce)

  -- The body of `matches` behind the test on an empty text.
  unfoldable pub matches_text : BypassRules → Text → Option IpAddr → Option ℕ → Bool
  unfolding act_on walk bypass_loopback
  matches_text r text written port =
      let reduce = r.ipv4_mapped_as_ipv4 in
      let ip = if reduce then map_option reduce_mapped written else written in
      let implicit = covers r.implicit text written in
      let entry_text = if r.strip_trailing_dot then without_suffix (lit ".") text else text in
      let unnamed = r.reversed_exceptions && is_nil r.rejected in
      if r.exclude_simple_hostnames && not (has b'.' text) && (bypass_loopback r || not implicit)
      then true
      else walk (act_on implicit text entry_text ip port reduce) unnamed (not r.reversed_exceptions)
          (implicit || unnamed) (reverse r.patterns)

  unfoldable pub matches : BypassRules → Host → Option ℕ → Bool
  unfolding matches_text
  matches r host port =
      let text = host_key host in
      if is_nil text then false else matches_text r text (host_ip host) port

  unfoldable pub matches_url : BypassRules → Url → Bool
  matches_url r url = elim (request_host url) [
    | none ↦ false
    | some host ↦
        matches r host (if r.require_explicit_port then url.port else url.port_or_known_default)
  ]

  authority_host : Text × Option ℕ → BypassRules → Bool
  authority_host parts r = elim (parse_host parts.0) [
    | err _ ↦ false
    | ok host ↦ matches r host parts.1
  ]

  unfoldable pub matches_authority : BypassRules → Text → Bool
  unfolding authority_host
  matches_authority r authority = elim (split_host_port (trim_with is_whitespace authority)) [
    | err _ ↦ false
    | ok parts ↦ authority_host parts r
  ]

  unfoldable pub push_entry_from :
      Text → BypassDialect → RejectionSource → BypassRules → BypassRules
  unfolding push_pattern
  push_entry_from entry dialect source r = elim (parse_in entry dialect) [
    | ok o ↦ elim o [ some p ↦ push_pattern p r | none ↦ r ]
    | err _ ↦ record r {
      rejected = r.rejected ++ (Diagnostic.new invalid_bypass_pattern source entry ∷ []);
    }
  ]

  unfoldable pub push_entry_in : Text → BypassDialect → BypassRules → BypassRules
  unfolding push_entry_from
  push_entry_in entry dialect = push_entry_from entry dialect bypass_list

-- Named on an `unfolding` line, this opens what a verdict computes with.
unfoldable pub verdict_ops : Unit {0}
unfolding text_ops covers is_loopback host_key act_on bypass_loopback pattern_matches
    strip_suffix_ignore_case port_matches matches
verdict_ops = tt
