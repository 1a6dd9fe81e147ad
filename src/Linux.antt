-- ===== src/Linux.antt =====
-- src/sys/linux/backend.rs: the configuration of a Linux desktop. What the build leaves out is the
-- argument `compiled_in`; the settings of libgio, the portal, the environment, the files and the
-- crate configparser are arguments, too.
pub mod Confinement
pub mod Routes
use proxy_watch.Config.{
  ProxyConfig, ProxyConfigSource, gsettings, portal, from_source, with_fallbacks,
}
use proxy_watch.Crates.{Crates}
use proxy_watch.Desktop
use proxy_watch.Desktop.{
  Desktop, Store, gsettings_store, kioslaverc_store, Reading, Readings, absent, unset, configured,
  current_desktop, read_in_order, note_compiled_out, assemble,
}
use proxy_watch.Error.{Error, unsupported, sandboxed}
use proxy_watch.Files.{FileRead}
use proxy_watch.Gnome.{configured_mode}
use proxy_watch.Gnome.Settings.{GnomeSettings}
use proxy_watch.Kde.{read_store}
use proxy_watch.Kde.Cascade.{search_dirs}
use proxy_watch.Linux.Confinement.{
  Sandbox, unsandboxed, flatpak, snap, gsettings_is_trustworthy, sandbox_name, detect,
}
use proxy_watch.Mode.{ProxyMode}
use proxy_watch.Prelude.{
  ℕ, Bool, true, false, not, ◌&&◌, Option, none, some, List, [], ◌∷◌, if◌then◌else◌,
}
use proxy_watch.Prelude.Result.{Result, ok, err, ◌>>=◌, ok_or}
use proxy_watch.Text.{Text, lit}

pub data Route : Type 0 where
  portal_route : Route
  -- whether `kioslaverc` is read
  stores : Bool → Route

abbrev is_kde : Desktop → Bool
is_kde Desktop.kde = true
is_kde Desktop.gnome = false
is_kde Desktop.unknown = false

abbrev is_unsandboxed : Sandbox → Bool
is_unsandboxed unsandboxed = true
is_unsandboxed (flatpak access) = false
is_unsandboxed snap = false

unfoldable pub route : Sandbox → Desktop → Route
route sandbox desktop =
    if is_unsandboxed sandbox
    then stores true
    else if gsettings_is_trustworthy sandbox && not (is_kde desktop)
    then stores false
    else portal_route

-- `desktop_config`, on what the two stores answer.
unfoldable pub stores_config :
    ℕ
    → (Store → Bool)
    → Desktop
    → Result Error Reading
    → Result Error Reading
    → Result Error ProxyConfig
stores_config now compiled_in desktop g k = read_in_order desktop g k >>= λ r.
    let noted = note_compiled_out desktop compiled_in r in
    ok_or unsupported (assemble now desktop noted) >>= λ c. ok (with_fallbacks noted.fallbacks c)

reading_of_mode : Option ProxyMode → Reading
reading_of_mode none = unset
reading_of_mode (some mode) = configured gsettings mode

abbrev config_search_dirs : (Text → Option Text) → List Text
config_search_dirs env =
    search_dirs (env (lit "XDG_CONFIG_HOME")) (env (lit "HOME")) (env (lit "XDG_CONFIG_DIRS"))

-- What the program takes from outside.
pub record Host : Type 0 where
  pub compiled_in : Store → Bool
  pub gnome_settings : Option GnomeSettings
  pub read_portal : Sandbox → Result Error ProxyMode
  pub env : Text → Option Text
  pub read_file : Text → FileRead
  pub ini_error : Text → Option Text
  pub now : ℕ

module _ ⦃crates : Crates⦄ (host : Host) where
  -- `gnome::read_store`, on the settings of libgio.
  gnome_read_store : Option GnomeSettings → Result Error Reading
  unfolding reading_of_mode
  gnome_read_store none = ok absent
  gnome_read_store (some settings) = configured_mode settings >>= λ mode. ok (reading_of_mode mode)

  unfoldable pub gnome_store : Result Error Reading
  unfolding gnome_read_store
  gnome_store =
      if host.compiled_in gsettings_store then gnome_read_store host.gnome_settings else ok absent

  unfoldable pub kde_store : Bool → Result Error Reading
  kde_store read =
      if read && host.compiled_in kioslaverc_store
      then read_store host.env host.now host.ini_error host.read_file (config_search_dirs host.env)
      else ok absent

  portal_mode : Sandbox → Result Error ProxyMode
  portal_mode sandbox =
      if host.compiled_in gsettings_store
      then host.read_portal sandbox
      else err
          (sandboxed (sandbox_name sandbox) (lit "the fallback needs the `linux-gnome` feature"))

  config_by : Sandbox → Desktop → Route → Result Error ProxyConfig
  unfolding portal_mode
  config_by sandbox desktop portal_route =
      portal_mode sandbox >>= λ mode. ok (from_source host.now portal mode)
  config_by sandbox desktop (stores kioslaverc) =
      stores_config host.now host.compiled_in desktop gnome_store (kde_store kioslaverc)

  -- `read_config_in`
  unfoldable pub read_config : Result Error ProxyConfig
  unfolding config_by
  read_config =
      let sandbox = detect host.env host.read_file in
      let desktop = current_desktop host.env in config_by sandbox desktop (route sandbox desktop)
