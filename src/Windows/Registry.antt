-- ===== src/Windows/Registry.antt =====
-- src/sys/win/mod.rs: the settings of Windows. The keys of the registry, and what WinHTTP answers
-- on the settings of the user and of the machine, are arguments.
pub mod Silence
pub mod Accounts
use proxy_watch.Config.{
  ProxyConfig, ProxyConfigSource, registry, group_policy, win_http_default, Source,
  from_ordered_sources, with_fallbacks,
}
use proxy_watch.Crates.{Crates, Url}
use proxy_watch.Error.{Error, invalid_url}
use proxy_watch.Mode.{ProxyMode, direct, pac, wpad_auto_detect}
use proxy_watch.Prelude.{
  ℕ, Bool, true, false, ◌||◌, Option, none, some, List, [], ◌∷◌, ◌++◌, ◌==◌, if◌then◌else◌, is_nil,
  is_some, unwrap_or,
}
use proxy_watch.Prelude.Result.{Result, ok, err, ◌>>=◌}
use proxy_watch.Text.{Text, lit, is_whitespace, trim_with}
use proxy_watch.Watch.Options.{WatchOptions}
use proxy_watch.Windows.{windows_manual}

-- An open key, by the readers of its values.
pub record RegKey : Type 0 where
  pub dword_value : Text → Result Error (Option ℕ)
  pub string_value : Text → Result Error (Option Text)

-- `WINHTTP_CURRENT_USER_IE_PROXY_CONFIG`, with its strings read.
pub record IeProxyConfig : Type 0 where
  pub auto_detect : Bool
  pub auto_config_url : Option Text
  pub proxy : Option Text
  pub proxy_bypass : Option Text

pub data AccessType : Type 0 where
  no_proxy named_proxy other_access : AccessType

-- `WINHTTP_PROXY_INFO`, with its strings read.
pub record WinHttpDefaultConfig : Type 0 where
  pub access_type : AccessType
  pub proxy : Option Text
  pub proxy_bypass : Option Text

-- A failure of Windows: that there is nothing to report, or another code.
pub data Failure : Type 0 where
  file_not_found : Failure
  other_code : ℕ → Failure

-- The answers of Windows: the two keys, where they exist, and the two queries.
pub record Answers : Type 0 where
  pub policy_key : Result Error (Option RegKey)
  pub user_key : Result Error (Option RegKey)
  pub ie_query : Result Failure IeProxyConfig
  pub winhttp_query : Result Failure WinHttpDefaultConfig

-- The values of a key.
pub record Values : Type 0 where
  pub enable : Option ℕ
  pub server : Option Text
  pub overrides : Option Text
  pub auto_config_url : Option Text
  pub auto_detect : Option ℕ

abbrev pub is_one : Option ℕ → Bool
is_one none = false
is_one (some n) = n == 1

-- `map(str::trim)` and `filter` by a text that is not empty.
abbrev filled_text : Text → Option Text
filled_text t = if is_nil t then none else some t

abbrev pub filled : Option Text → Option Text
filled none = none
filled (some t) = filled_text (trim_with is_whitespace t)

abbrev pub enabled_server : Option ℕ → Option Text → Option Text
enabled_server enable server = if is_one enable then server else none

unfoldable pub decides_whether_to_proxy : Option ℕ → Option Text → Option ℕ → Bool
decides_whether_to_proxy enable auto_config_url auto_detect =
    is_some enable || is_some (filled auto_config_url) || is_some auto_detect

unfoldable pub read_values : RegKey → Result Error Values
read_values key = do
  enable ← key.dword_value (lit "ProxyEnable")
  server ← key.string_value (lit "ProxyServer")
  overrides ← key.string_value (lit "ProxyOverride")
  auto_config_url ← key.string_value (lit "AutoConfigURL")
  auto_detect ← key.dword_value (lit "AutoDetect")
  ok (record {
    enable = enable;
    server = server;
    overrides = overrides;
    auto_config_url = auto_config_url;
    auto_detect = auto_detect;
  })

module _ ⦃crates : Crates⦄ where
  -- The mode of a server, where there is one.
  abbrev pub static_mode : Option Text → Option Text → ProxyMode
  static_mode none overrides = direct
  static_mode (some server) overrides = windows_manual server (unwrap_or overrides [])

  abbrev pub scripted : Option Text → Option Text → Option Text → Result Error ProxyMode
  scripted none server overrides = ok (static_mode (filled server) overrides)
  scripted (some url) server overrides = elim (crates.url_parse url) [
    | ok parsed ↦ ok (pac parsed)
    | err source ↦ err (invalid_url url source)
  ]

  unfoldable pub resolve_mode :
      Bool → Option Text → Option Text → Option Text → Result Error ProxyMode
  resolve_mode auto_detect auto_config_url server overrides =
      if auto_detect
      then ok wpad_auto_detect
      else scripted (filled auto_config_url) server overrides

  unfoldable pub mode_of_values : Values → Result Error (Option ProxyMode)
  unfolding decides_whether_to_proxy resolve_mode
  mode_of_values v =
      if decides_whether_to_proxy v.enable v.auto_config_url v.auto_detect
      then (do
        mode ←
            resolve_mode (is_one v.auto_detect) v.auto_config_url (enabled_server v.enable v.server)
              v.overrides
        ok (some mode))
      else ok none

  unfoldable pub mode_from_registry : RegKey → Result Error (Option ProxyMode)
  mode_from_registry key = do values ← read_values key; mode_of_values values

  abbrev mode_of_key : Option RegKey → Result Error (Option ProxyMode)
  mode_of_key none = ok none
  mode_of_key (some key) = mode_from_registry key

  unfoldable pub read_group_policy_mode : Answers → Result Error (Option ProxyMode)
  read_group_policy_mode answers = do key ← answers.policy_key; mode_of_key key

  -- Readers that may note a fallback answer it beside their result.
  abbrev group_policy_source :
      Result Error (Option ProxyMode)
      → List ProxyConfigSource
      → Option Source × List ProxyConfigSource
  group_policy_source (ok (some mode)) fallbacks = (some (group_policy, mode), fallbacks)
  group_policy_source (ok none) fallbacks = (none, fallbacks)
  group_policy_source (err e) fallbacks = (none, fallbacks ++ group_policy ∷ [])

  unfoldable pub user_key_mode : Answers → Result Error ProxyMode
  user_key_mode answers = do
    key ← answers.user_key
    mode ← mode_of_key key
    ok (unwrap_or mode direct)

  unfoldable pub ie_mode : IeProxyConfig → Result Error ProxyMode
  ie_mode c = resolve_mode c.auto_detect c.auto_config_url c.proxy c.proxy_bypass

  abbrev user_mode :
      Answers
      → Result Failure IeProxyConfig
      → List ProxyConfigSource
      → Result Error (ProxyMode × List ProxyConfigSource)
  user_mode answers (ok config) fallbacks = do mode ← ie_mode config; ok (mode, fallbacks)
  user_mode answers (err file_not_found) fallbacks = do
    mode ← user_key_mode answers
    ok (mode, fallbacks)
  user_mode answers (err (other_code code)) fallbacks = do
    mode ← user_key_mode answers
    ok (mode, fallbacks ++ registry ∷ [])

  abbrev read_user_mode :
      Answers → List ProxyConfigSource → Result Error (ProxyMode × List ProxyConfigSource)
  read_user_mode answers fallbacks = user_mode answers answers.ie_query fallbacks

  unfoldable pub winhttp_default_mode : WinHttpDefaultConfig → ProxyMode
  winhttp_default_mode c = elim c.access_type [
    | named_proxy ↦ static_mode (filled c.proxy) c.proxy_bypass
    | no_proxy ↦ direct
    | other_access ↦ direct
  ]

  abbrev winhttp_default_source :
      Result Failure WinHttpDefaultConfig
      → List ProxyConfigSource
      → Option Source × List ProxyConfigSource
  winhttp_default_source (ok config) fallbacks =
      (some (win_http_default, winhttp_default_mode config), fallbacks)
  winhttp_default_source (err file_not_found) fallbacks = (none, fallbacks)
  winhttp_default_source (err (other_code code)) fallbacks =
      (none, fallbacks ++ win_http_default ∷ [])

  abbrev given : Option Source → List Source
  given none = []
  given (some source) = source ∷ []

  unfoldable pub in_precedence_order : Option Source → ProxyMode → Option Source → List Source
  in_precedence_order policy user machine = (registry, user) ∷ given policy ++ given machine

  abbrev policy_source :
      Bool → Answers → List ProxyConfigSource → Option Source × List ProxyConfigSource
  policy_source true answers fallbacks =
      group_policy_source (read_group_policy_mode answers) fallbacks
  policy_source false answers fallbacks = (none, fallbacks)

  unfoldable pub read_config : ℕ → WatchOptions → Answers → Result Error ProxyConfig
  unfolding in_precedence_order
  read_config now options answers =
      let (policy, noted) = policy_source options.watch_group_policy answers [] in
      do
        (user, more) ← read_user_mode answers noted
        let (machine, fallbacks) = winhttp_default_source answers.winhttp_query more
        ok (
            with_fallbacks fallbacks
              (from_ordered_sources now (in_precedence_order policy user machine)))

  -- What lies beneath automatic detection.
  abbrev pub parsed : Option Text → Option Url
  parsed none = none
  parsed (some url) = elim (crates.url_parse url) [ ok u ↦ some u | err _ ↦ none ]

  unfoldable pub wpad_fallback_beneath :
      Option Text → Option Text → Option Text → Option Url × ProxyMode
  wpad_fallback_beneath auto_config_url server overrides =
      (parsed (filled auto_config_url), static_mode (filled server) overrides)

  unfoldable pub wpad_fallback_from_key : RegKey → Result Error (Option Url × ProxyMode)
  wpad_fallback_from_key key = do
    enable ← key.dword_value (lit "ProxyEnable")
    server ← key.string_value (lit "ProxyServer")
    overrides ← key.string_value (lit "ProxyOverride")
    auto_config_url ← key.string_value (lit "AutoConfigURL")
    ok (wpad_fallback_beneath auto_config_url (enabled_server enable server) overrides)

  abbrev key_fallback : Option RegKey → Result Error (Option Url × ProxyMode)
  key_fallback none = ok (none, direct)
  key_fallback (some key) = wpad_fallback_from_key key

  abbrev fallback_of :
      Answers → Result Failure IeProxyConfig → Result Error (Option Url × ProxyMode)
  fallback_of answers (ok c) = ok (wpad_fallback_beneath c.auto_config_url c.proxy c.proxy_bypass)
  fallback_of answers (err _) = do key ← answers.user_key; key_fallback key

  unfoldable pub wpad_fallback : Answers → Result Error (Option Url × ProxyMode)
  wpad_fallback answers = fallback_of answers answers.ie_query
