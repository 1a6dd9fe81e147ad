-- ===== src/Android.antt =====
-- src/sys/proxy_info.rs: the default proxy of Android, as a mode.
pub mod Exclusions
pub mod Selected
use proxy_watch.Bypass.Pattern.{subtract_implicit, windows}
use proxy_watch.Bypass.Rules
use proxy_watch.Bypass.Rules.{BypassRules, push_pattern, push_entry_from, dedup_patterns}
use proxy_watch.Crates.{Crates}
use proxy_watch.Diagnostic
use proxy_watch.Diagnostic.{
  RejectedValue, invalid_proxy_endpoint, invalid_bypass_pattern, proxy_info, for_scheme,
}
use proxy_watch.Dict.Values.{show_number}
use proxy_watch.Endpoint
use proxy_watch.Endpoint.{ProxyEndpoint, use_endpoint, parse_host}
use proxy_watch.Error.{Error, invalid_url}
use proxy_watch.Mode.{ProxyMode, direct, manual, pac, with_rejected}
use proxy_watch.Mode.Table.{Slots, no_slots, insert}
use proxy_watch.Prelude.{
  ℕ, ◌^◌, Bool, true, false, not, ◌&&◌, ◌||◌, Option, none, some, List, [], ◌∷◌, ◌++◌, ◌==◌,
  if◌then◌else◌, any, is_nil, unwrap_or, or_option,
}
use proxy_watch.Prelude.Integer.{ℤ, pos, is_zero, try_unsigned}
use proxy_watch.Prelude.Result.{Result, ok, err}
use proxy_watch.Scheme.{Scheme}
use proxy_watch.Text.{
  Text, lit, has, is_whitespace, split, starts_with, ends_with, strip_prefix, strip_suffix,
}

pub record ProxyInfo : Type 0 where
  pub host : Option Text
  pub port : ℤ
  pub exclusions : List Text
  pub pac_url : Option Text

-- `filter` by a text that is not empty.
abbrev pub non_blank : Option Text → Option Text
non_blank none = none
non_blank (some t) = if is_nil t then none else some t

pub default_exclusions : List Text
default_exclusions = lit "localhost" ∷ lit "127.*" ∷ lit "[::1]" ∷ lit "0.0.0.0" ∷ lit "[::0]" ∷ []

-- `exclusions.join(",").is_empty()`
joins_empty : List Text → Bool
joins_empty [] = true
joins_empty (element ∷ []) = is_nil element
joins_empty (element ∷ _ ∷ _) = false

abbrev pub is_separator : ℕ → Bool
is_separator c = c == b',' || c == b'|'

pieces : List Text → List Text
pieces [] = []
pieces (element ∷ elements) = split is_separator element ++ pieces elements

-- The entry without a star at one of its ends.
without_star : Text → Text
without_star entry =
    unwrap_or (or_option (strip_prefix (lit "*") entry) (strip_suffix (lit "*") entry)) entry

unfoldable pub matches_no_host : Text → Bool
unfolding without_star
matches_no_host entry =
    starts_with (lit "<") entry
    || any is_whitespace entry
    || has b'*' (without_star entry)
    || (has b':' entry && not (starts_with (lit "[") entry && ends_with (lit "]") entry))

module _ ⦃crates : Crates⦄ where
  push_exclusion : Text → BypassRules → BypassRules
  unfolding matches_no_host
  push_exclusion entry r =
      if matches_no_host entry
      then record r {
        rejected =
            r.rejected
            ++ (Diagnostic.new invalid_bypass_pattern (proxy_info (lit "exclusionList")) entry
                ∷ []);
      }
      else push_entry_from entry windows (proxy_info (lit "exclusionList")) r

  push_exclusions : List Text → BypassRules → BypassRules
  push_exclusions [] r = r
  push_exclusions (entry ∷ entries) r = push_exclusions entries (push_exclusion entry r)

  unfoldable pub info_bypass : List Text → BypassRules
  unfolding push_exclusions push_exclusion joins_empty pieces default_exclusions
  info_bypass exclusions =
      let rules = record (push_pattern subtract_implicit Rules.new) {
        strip_trailing_dot = false;
        ipv4_mapped_as_ipv4 = false;
      } in
      let defaults = if joins_empty exclusions then [] else default_exclusions in
      dedup_patterns (push_exclusions (pieces exclusions ++ defaults) rules)

  info_port : ℤ → ℕ → Option ℕ
  info_port port default_port =
      if is_zero port then some default_port else try_unsigned (2 ^ 16) port

  -- The endpoint, or the field that failed with its text.
  unfoldable pub info_endpoint : Text → ℤ → ℕ → Result (Text × Text) ProxyEndpoint
  unfolding info_port
  info_endpoint host port default_port = elim (info_port port default_port) [
    | none ↦ err (lit "port", show_number port)
    | some p ↦ elim (parse_host host) [
      | err _ ↦ err (lit "host", host)
      | ok h ↦ ok (Endpoint.new h p)
    ]
  ]

  read_scheme : Text → ℤ → Scheme → ℕ → Slots × List RejectedValue → Slots × List RejectedValue
  unfolding info_endpoint
  read_scheme host port scheme default_port so_far = elim (info_endpoint host port default_port) [
    | ok e ↦ (insert scheme (use_endpoint e) so_far.0, so_far.1)
    | err f ↦ (
      so_far.0,
      so_far.1
          ++ for_scheme (some scheme) (Diagnostic.new invalid_proxy_endpoint (proxy_info f.0) f.1)
            ∷ [],
    )
  ]

  unfoldable pub info_manual : ProxyInfo → Text → ProxyMode
  unfolding read_scheme
  info_manual info host =
      let both =
        read_scheme host info.port Scheme.https 443
          (read_scheme host info.port Scheme.http 80 (no_slots, [])) in
      with_rejected both.1 (manual both.0 (info_bypass info.exclusions))

  abbrev pub from_host : ProxyInfo → Option Text → Result Error ProxyMode
  from_host info none = ok direct
  from_host info (some host) = ok (info_manual info host)

  abbrev pub from_script : ProxyInfo → Option Text → Result Error ProxyMode
  from_script info none = from_host info (non_blank info.host)
  from_script info (some url) = elim (crates.url_parse url) [
    | ok parsed ↦ ok (pac parsed)
    | err source ↦ err (invalid_url url source)
  ]

  unfoldable pub mode_from_proxy_info : Option ProxyInfo → Result Error ProxyMode
  mode_from_proxy_info none = ok direct
  mode_from_proxy_info (some info) = from_script info (non_blank info.pac_url)
