-- ===== src/Dict.antt =====
-- src/sys/proxy_dict.rs: from the proxy dictionary of macOS and iOS to a mode, and from the two
-- scopes of macOS to a snapshot. A dictionary is a function from its keys.
pub mod Values
pub mod Schemes
pub mod Bypass
pub mod Silence
pub mod Catchall
use proxy_watch.Config.{
  ProxyConfig, ProxyConfigSource, Source, system_configuration_setup, system_configuration_state,
  from_ordered_sources, with_fallbacks,
}
use proxy_watch.Crates.{Crates, Url}
use proxy_watch.Diagnostic.{RejectedValue}
use proxy_watch.Dict.Bypass.{bypass_from_dict}
use proxy_watch.Dict.Schemes.{
  Reading, SchemeKeys, dict_schemes, unroutable, read_schemes, unroutable_schemes,
  apply_socks_fallback, unreadable_flag, unreadable_text,
}
use proxy_watch.Dict.Values.{ProxyDict, flag, text, raw_text}
use proxy_watch.Endpoint.{ProxyEntry, disabled}
use proxy_watch.Error.{Error, invalid_url}
use proxy_watch.Mode.{ProxyMode, direct, manual, pac, pac_inline, wpad_auto_detect, with_rejected}
use proxy_watch.Mode.Table.{Slots, no_slots}
use proxy_watch.Prelude.{
  ℕ, Bool, true, false, not, ◌&&◌, Option, none, some, List, [], ◌∷◌, ◌++◌, if◌then◌else◌, any,
  is_nil, is_some,
}
use proxy_watch.Prelude.Result.{Result, ok, err, map_err}
use proxy_watch.Scheme.{Scheme, scheme_eq}
use proxy_watch.Text.{Text, lit}

abbrev pub auto_discovery_enable : Text
auto_discovery_enable = lit "ProxyAutoDiscoveryEnable"

abbrev pub auto_config_enable : Text
auto_config_enable = lit "ProxyAutoConfigEnable"

abbrev pub auto_config_url : Text
auto_config_url = lit "ProxyAutoConfigURLString"

abbrev pub auto_config_javascript : Text
auto_config_javascript = lit "ProxyAutoConfigJavaScript"

abbrev pub is_set : Option Bool → Bool
is_set (some true) = true
is_set _ = false

abbrev takes_catch_all : RejectedValue → Bool
takes_catch_all v = elim v.affected_scheme [ none ↦ false | some s ↦ scheme_eq s Scheme.all ]

abbrev pub loses_catch_all : List RejectedValue → Bool
loses_catch_all = any takes_catch_all

abbrev enabled_only : Option ProxyEntry → Option ProxyEntry
enabled_only (some disabled) = none
enabled_only e = e

-- `retain`: the entries that are not disabled.
abbrev pub without_disabled : Slots → Slots
without_disabled m = λ s. enabled_only (m s)

module _ ⦃crates : Crates⦄ where
  unfoldable pub read_all_schemes : ProxyDict → List RejectedValue → Reading
  unfolding read_schemes
  read_all_schemes d rejected =
      read_schemes d dict_schemes
        (record { per_scheme = no_slots; rejected = rejected; any_enabled = false })

  unfoldable pub schemes_mode : ProxyDict → List RejectedValue → ProxyMode
  unfolding read_all_schemes unroutable_schemes apply_socks_fallback
  schemes_mode d before =
      let r = read_all_schemes d before in
      let rejected = r.rejected ++ unroutable_schemes d unroutable in
      let fallen = apply_socks_fallback r.per_scheme in
      let kept = if loses_catch_all rejected then without_disabled fallen else fallen in
      if not r.any_enabled && is_nil rejected
      then direct
      else with_rejected rejected (manual kept (bypass_from_dict d))

  -- The configuration script: inline text first, then a URL, else what of the two is unreadable.
  script_mode : ProxyDict → List RejectedValue → Option Text → Option Text → Result Error ProxyMode
  unfolding schemes_mode unreadable_text
  script_mode d rejected (some script) url = ok (with_rejected rejected (pac_inline script))
  script_mode d rejected none (some url) = elim (crates.url_parse url) [
    | ok parsed ↦ ok (with_rejected rejected (pac parsed))
    | err source ↦ err (invalid_url url source)
  ]
  script_mode d rejected none none = ok (
      schemes_mode d (
        (rejected ++ unreadable_text d auto_config_javascript (some Scheme.all))
        ++ unreadable_text d auto_config_url (some Scheme.all)))

  unfoldable pub mode_from_dict : ProxyDict → Result Error ProxyMode
  unfolding script_mode unreadable_flag
  mode_from_dict d =
      let discovery = unreadable_flag d auto_discovery_enable (some Scheme.all) in
      let config = discovery ++ unreadable_flag d auto_config_enable (some Scheme.all) in
      if is_set (flag d auto_discovery_enable)
      then ok wpad_auto_detect
      else if is_set (flag d auto_config_enable)
      then script_mode d config (raw_text d auto_config_javascript) (text d auto_config_url)
      else ok (schemes_mode d config)

abbrev scope : ProxyConfigSource → Option ProxyMode → List Source
scope source none = []
scope source (some mode) = (source, mode) ∷ []

merge_modes : ℕ → List ProxyConfigSource → Option ProxyMode → Option ProxyMode → ProxyConfig
merge_modes now fallbacks setup state = with_fallbacks fallbacks (
    from_ordered_sources now
      (scope system_configuration_state state ++ scope system_configuration_setup setup))

-- The scope that is in effect comes first; the other may be missing only where this one is there.
unfoldable pub merge_setup_and_state :
    ℕ → Result Error (Option ProxyMode) → Option ProxyMode → Result Error ProxyConfig
unfolding merge_modes
merge_setup_and_state now (ok setup) state = ok (merge_modes now [] setup state)
merge_setup_and_state now (err e) (some state) =
    ok (merge_modes now (system_configuration_setup ∷ []) none (some state))
merge_setup_and_state now (err e) none = err e
