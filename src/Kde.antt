-- ===== src/Kde.antt =====
-- src/sys/linux/kioslaverc.rs and kde.rs: from KDE's proxy settings to a mode.
pub mod Settings
pub mod Escape
pub mod Header
pub mod File
pub mod Cascade
pub mod Address
pub mod Manual
pub mod Indirect
pub mod Silence
use proxy_watch.Bypass.Match.{nothing}
use proxy_watch.Bypass.Rules
use proxy_watch.Bypass.Rules.{BypassRules}
use proxy_watch.Config.{ProxyConfigSource, kioslaverc, kioslaverc_env}
use proxy_watch.Crates.{Crates, Url}
use proxy_watch.Desktop.{Reading, absent, unset, configured}
use proxy_watch.Diagnostic
use proxy_watch.Diagnostic.{unsupported_mapping, for_scheme}
use proxy_watch.Error.{Error, invalid_url}
use proxy_watch.Files.{FileRead}
use proxy_watch.Kde.Cascade.{KioslavercRead, read_kioslaverc}
use proxy_watch.Kde.Indirect.{env_mode}
use proxy_watch.Kde.Manual.{kde_manual}
use proxy_watch.Kde.Settings.{
  KioslavercSettings, key_proxy_type, key_config_script, text, has_key, needs_expansion, trim_ascii,
}
use proxy_watch.Mode.{ProxyMode, direct, wpad_auto_detect, manual, pac, with_rejected}
use proxy_watch.Mode.Table.{no_slots}
use proxy_watch.Prelude.{
  ℕ, Bool, true, false, ◌&&◌, ◌||◌, Option, none, some, List, [], ◌∷◌, ◌++◌, ◌+◌, ◌/◌, ◌%◌, ◌==◌,
  ltb, if◌then◌else◌, any, and_then, unwrap_or,
}
use proxy_watch.Prelude.Integer.{ℤ, pos, negsuc}
use proxy_watch.Prelude.Result.{Result, ok, err, ◌>>=◌}
use proxy_watch.Scheme.{Scheme}
use proxy_watch.Text.{Text, lit, is_digit, between, starts_with}
use proxy_watch.Text.Number.{parse_i64}
use proxy_watch.Text.Utf8.{encode}

pub data ProxyType : Type 0 where
  no_proxy manual_proxy pac_proxy wpad_proxy env_var_proxy : ProxyType

unfoldable pub from_i64 : ℤ → Option ProxyType
from_i64 (negsuc n) = none
from_i64 (pos n) =
    if n == 0
    then some no_proxy
    else if n == 1
    then some manual_proxy
    else if n == 2
    then some pac_proxy
    else if n == 3
    then some wpad_proxy
    else if n == 4
    then some env_var_proxy
    else none

pub record KdeConfig : Type 0 where
  pub source : ProxyConfigSource
  pub mode : ProxyMode

reading_of : Option KdeConfig → Reading
reading_of none = unset
reading_of (some c) = configured c.source c.mode

-- Whether a byte of a path stands for itself in a URL.
is_path_byte : ℕ → Bool
is_path_byte b =
    is_digit b
    || between b'a' b'z' b
    || between b'A' b'Z' b
    || any (λ c. c == b) (lit "-._~!$&'()*+,;=/")

abbrev hex_char : ℕ → ℕ
hex_char n = if ltb n 10 then 48 + n else 55 + n

path_bytes : List ℕ → Text
unfolding is_path_byte
path_bytes [] = []
path_bytes (b ∷ bs) =
    (if is_path_byte b then b ∷ [] else b'%' ∷ hex_char (b / 16) ∷ hex_char (b % 16) ∷ [])
    ++ path_bytes bs

abbrev no_bypass : BypassRules
no_bypass = record Rules.new { implicit = nothing; ipv4_mapped_as_ipv4 = false }

-- The proxy type, with KDE's default where it is absent or cannot be read.
unfoldable pub proxy_type : KioslavercSettings → ProxyType
unfolding from_i64
proxy_type s =
    unwrap_or (and_then (text s key_proxy_type) (λ v. and_then (parse_i64 (trim_ascii v)) from_i64))
      no_proxy

module _ ⦃crates : Crates⦄ where
  parse_path : Text → Result Error Url
  unfolding path_bytes
  parse_path script = elim (crates.url_parse (lit "file://" ++ path_bytes (encode script))) [
    | ok url ↦ ok url
    | err source ↦ err (invalid_url script source)
  ]

  unfoldable pub parse_script_location : Text → Result Error Url
  unfolding parse_path
  parse_script_location script = elim (crates.url_parse script) [
    | ok url ↦ ok url
    | err _ ↦
        if starts_with (lit "/") script
        then parse_path script
        else err (invalid_url script (lit "relative URL without a base"))
  ]

  script_mode : KioslavercSettings → Option Text → Result Error ProxyMode
  script_mode s none = ok direct
  script_mode s (some script) =
      if needs_expansion s key_config_script
      then ok (
          with_rejected
            (for_scheme (some Scheme.all) (
                Diagnostic.new unsupported_mapping (Diagnostic.kioslaverc key_config_script) script)
              ∷ [])
            (manual no_slots no_bypass))
      else parse_script_location script >>= λ url. ok (pac url)

  unfoldable pub kde_pac : KioslavercSettings → Result Error ProxyMode
  unfolding script_mode
  kde_pac s = script_mode s (text s key_config_script)

  module _ (env : Text → Option Text) (now : ℕ) where
    mode_of : KioslavercSettings → ProxyType → Result Error KdeConfig
    mode_of s no_proxy = ok (record { source = kioslaverc; mode = direct })
    mode_of s wpad_proxy = ok (record { source = kioslaverc; mode = wpad_auto_detect })
    mode_of s pac_proxy = kde_pac s >>= λ m. ok (record { source = kioslaverc; mode = m })
    mode_of s manual_proxy = ok (record { source = kioslaverc; mode = kde_manual s })
    mode_of s env_var_proxy =
        env_mode env now s >>= λ m. ok (record { source = kioslaverc_env; mode = m })

    unfoldable pub config_from_kioslaverc : KioslavercSettings → Result Error KdeConfig
    unfolding mode_of
    config_from_kioslaverc s = mode_of s (proxy_type s)

    unfoldable pub configured_from_kioslaverc : KioslavercSettings → Result Error (Option KdeConfig)
    unfolding config_from_kioslaverc
    configured_from_kioslaverc s =
        if has_key s key_proxy_type
        then (config_from_kioslaverc s >>= λ c. ok (some c))
        else ok none

    -- `read_store`, on what `read_kioslaverc` gave.
    reading : Option KioslavercRead → Result Error Reading
    unfolding configured_from_kioslaverc reading_of
    reading none = ok absent
    reading (some r) =
        if r.found_proxy_settings
        then (configured_from_kioslaverc r.settings >>= λ c. ok (reading_of c))
        else ok unset

    unfoldable pub read_store :
        (Text → Option Text) → (Text → FileRead) → List Text → Result Error Reading
    unfolding reading
    read_store ini_error read_file dirs = read_kioslaverc ini_error read_file dirs >>= reading
