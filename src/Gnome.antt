-- ===== src/Gnome.antt =====
-- src/sys/linux/gsettings_map.rs: from the GNOME settings to a mode.
pub mod Settings
pub mod Hosts
use proxy_watch.Auth.{ProxyAuth, password_not_read}
use proxy_watch.Auth
use proxy_watch.Bypass.Lists.{bypass_entries_in}
use proxy_watch.Bypass.Match.{nothing}
use proxy_watch.Bypass.Pattern.{gnome}
use proxy_watch.Bypass.Rules
use proxy_watch.Bypass.Rules.{BypassRules}
use proxy_watch.Crates.{Crates}
use proxy_watch.Diagnostic
use proxy_watch.Diagnostic.{RejectedValue, invalid_proxy_endpoint, gsettings, for_scheme}
use proxy_watch.Endpoint.{
  ProxyEndpoint, ProxyEntry, use_endpoint, disabled, is_disabled, parse_endpoint, with_scheme_hint,
  with_auth,
}
use proxy_watch.Error.{Error, invalid_url}
use proxy_watch.Gnome.Settings.{
  GnomeSettings, ChildKeys, http_child, https_child, ftp_child, socks_child, child_key, key_mode,
  key_autoconfig_url, key_ignore_hosts, key_use_same_proxy, key_host, key_port,
  key_use_authentication, key_authentication_user, key_authentication_password, text, flag, port,
  list, has_written_value,
}
use proxy_watch.Mode.{ProxyMode, direct, manual, pac, wpad_auto_detect, with_rejected, is_direct}
use proxy_watch.Mode.Table.{Slots, no_slots, get, insert, or_insert}
use proxy_watch.Prelude.{
  ℕ, Bool, true, false, not, ◌&&◌, ◌||◌, Option, none, some, List, [], ◌∷◌, ◌++◌, if◌then◌else◌,
  all, any, find, is_nil, is_some, unwrap_or, or_option,
}
use proxy_watch.Prelude.Result.{Result, ok, err}
use proxy_watch.Scheme.{Scheme, ProxyScheme, schemes, scheme_eq}
use proxy_watch.Text.{Text, lit, text_eq}

abbrev pub is_on : Option Bool → Bool
is_on (some true) = true
is_on _ = false

abbrev pub same_proxy : GnomeSettings → Bool
same_proxy s = is_on (flag s key_use_same_proxy)

-- Where the HTTP proxy serves every scheme, losing it loses the catch-all.
abbrev attributed_scheme : GnomeSettings → ChildKeys → Scheme
attributed_scheme s keys =
    if scheme_eq keys.scheme Scheme.socks || (scheme_eq keys.scheme Scheme.http && same_proxy s)
    then Scheme.all
    else keys.scheme

abbrev ported : Option ℕ → ProxyEndpoint → ProxyEndpoint
ported none e = e
ported (some p) e = record e { port = p }

abbrev hinted : Option ProxyScheme → ProxyEndpoint → ProxyEndpoint
hinted none e = e
hinted (some hint) e = if is_some e.scheme_hint then e else with_scheme_hint hint e

credentials : GnomeSettings → ChildKeys → Text → ProxyAuth
credentials s keys user =
    let key = child_key keys.child key_authentication_password in
    let auth = Auth.new user (text s key) in
    if is_some (s.entries key) then auth else password_not_read auth

authenticated : GnomeSettings → ChildKeys → ProxyEndpoint → ProxyEndpoint
unfolding credentials
authenticated s keys e =
    if scheme_eq keys.scheme Scheme.http
      && is_on (flag s (child_key keys.child key_use_authentication))
    then elim (text s (child_key keys.child key_authentication_user)) [
      | some user ↦ with_auth (credentials s keys user) e
      | none ↦ e
    ]
    else e

abbrev pub host_of : GnomeSettings → ChildKeys → Option Text
host_of s keys = text s (child_key keys.child key_host)

module _ ⦃crates : Crates⦄ where
  child_endpoint :
      GnomeSettings → ChildKeys → Option Text → Option ProxyEndpoint × List RejectedValue
  unfolding authenticated
  child_endpoint s keys none = (none, [])
  child_endpoint s keys (some host) = elim (parse_endpoint host keys.default_port) [
    | ok e ↦ (
      some (
          authenticated s keys
            (hinted keys.hint (ported (port s (child_key keys.child key_port)) e))),
      [],
    )
    | err _ ↦ (
      none,
      for_scheme (some (attributed_scheme s keys))
            (Diagnostic.new invalid_proxy_endpoint (gsettings (child_key keys.child key_host)) host)
          ∷ [],
    )
  ]

  -- `endpoint_for`: the endpoint of a child, and the drop.
  unfoldable pub child_endpoint_for :
      GnomeSettings → ChildKeys → Option ProxyEndpoint × List RejectedValue
  unfolding child_endpoint
  child_endpoint_for s keys = child_endpoint s keys (host_of s keys)

-- The endpoints of the four children.
pub record Resolved : Type 0 where
  pub http : Option ProxyEndpoint
  pub https : Option ProxyEndpoint
  pub ftp : Option ProxyEndpoint
  pub socks : Option ProxyEndpoint

abbrev insert_some : Scheme → Option ProxyEndpoint → Slots → Slots
insert_some scheme none m = m
insert_some scheme (some e) m = insert scheme (use_endpoint e) m

unfoldable pub same_slots : Resolved → Slots
same_slots r = insert_some Scheme.socks r.socks (
    insert_some Scheme.ftp r.ftp
      (insert_some Scheme.https r.https (insert_some Scheme.all r.http no_slots)))

abbrev affects : Scheme → RejectedValue → Bool
affects s v = elim v.affected_scheme [ none ↦ false | some t ↦ scheme_eq t s ]

-- A drop of the HTTP proxy that HTTPS would have inherited is one of HTTPS, too.
inherited_drops : Option Text → List RejectedValue → List RejectedValue
inherited_drops (some host) rejected = rejected
inherited_drops none rejected = elim (find (affects Scheme.http) rejected) [
  | none ↦ rejected
  | some v ↦ rejected ++ for_scheme (some Scheme.https) v ∷ []
]

inherited_https : Option Text → Option ProxyEndpoint → Option ProxyEndpoint
inherited_https (some host) http = none
inherited_https none http = http

-- A slot of its own: in use, disabled where nothing can serve the scheme, or empty.
slot : Bool → List RejectedValue → Scheme → Option ProxyEndpoint → Slots → Slots
slot socks_there rejected scheme (some e) m = insert scheme (use_endpoint e) m
slot socks_there rejected scheme none m =
    if not socks_there && not (any (affects scheme) rejected) then insert scheme disabled m else m

unfoldable pub own_slots : Bool → List RejectedValue → Option ProxyEndpoint → Resolved → Slots
unfolding slot
own_slots socks_there rejected inherited r = slot socks_there rejected Scheme.socks r.socks (
    slot socks_there rejected Scheme.ftp r.ftp (
      slot socks_there rejected Scheme.https (or_option r.https inherited)
        (slot socks_there rejected Scheme.http r.http no_slots)))

abbrev catch_all : Option ProxyEndpoint → Slots → Slots
catch_all none m = m
catch_all (some e) m = or_insert Scheme.all (use_endpoint e) m

abbrev off : Option ProxyEntry → Bool
off none = true
off (some e) = is_disabled e

-- `per_scheme.values().all(ProxyEntry::is_disabled)`
abbrev pub all_disabled : Slots → Bool
all_disabled m = all (λ s. off (get m s)) schemes

-- From the endpoints and the drops of the children, by whether the HTTP proxy serves every scheme,
-- the host of HTTPS, and whether SOCKS has a host.
unfoldable pub slots_from :
    Bool → Option Text → Bool → Resolved → List RejectedValue → Slots × List RejectedValue
unfolding same_slots own_slots inherited_drops inherited_https
slots_from true https_host socks_host r rejected = (catch_all r.socks (same_slots r), rejected)
slots_from false https_host socks_host r rejected =
    let noted = inherited_drops https_host rejected in
    (
      catch_all r.socks
          (own_slots (is_some r.socks || socks_host) noted (inherited_https https_host r.http) r),
      noted,
    )

module _ ⦃crates : Crates⦄ where
  listed : Option (List Text) → BypassRules
  listed none = Rules.new
  listed (some items) = bypass_entries_in items gnome

  unfoldable pub bypass_from_settings : GnomeSettings → BypassRules
  unfolding listed
  bypass_from_settings s =
      let rules = listed (list s key_ignore_hosts) in
      record rules {
        implicit = nothing;
        ipv4_mapped_as_ipv4 = false;
        strip_trailing_dot = false;
        require_explicit_port = true;
      }

  -- The entries and the drops of a manual mode.
  unfoldable pub manual_slots : GnomeSettings → Slots × List RejectedValue
  unfolding child_endpoint_for slots_from
  manual_slots s =
      let http = child_endpoint_for s http_child in
      let https = child_endpoint_for s https_child in
      let ftp = child_endpoint_for s ftp_child in
      let socks = child_endpoint_for s socks_child in
      slots_from (same_proxy s) (host_of s https_child) (is_some (host_of s socks_child))
        (record { http = http.0; https = https.0; ftp = ftp.0; socks = socks.0 })
        (((http.1 ++ https.1) ++ ftp.1) ++ socks.1)

  unfoldable pub gnome_manual : GnomeSettings → ProxyMode
  unfolding manual_slots bypass_from_settings
  gnome_manual s =
      let r = manual_slots s in
      if all_disabled r.0 && is_nil r.1
      then direct
      else with_rejected r.1 (manual r.0 (bypass_from_settings s))

  automatic : Option Text → Result Error ProxyMode
  automatic none = ok wpad_auto_detect
  automatic (some url) = elim (crates.url_parse url) [
    | ok parsed ↦ ok (pac parsed)
    | err source ↦ err (invalid_url url source)
  ]

  unfoldable pub mode_from_settings : GnomeSettings → Result Error ProxyMode
  unfolding gnome_manual automatic
  mode_from_settings s =
      let mode = unwrap_or (text s key_mode) (lit "none") in
      if text_eq mode (lit "manual")
      then ok (gnome_manual s)
      else if text_eq mode (lit "auto")
      then automatic (text s key_autoconfig_url)
      else ok direct

  -- Nothing, where no user wrote a value and the mode is direct.
  unfoldable pub configured_mode : GnomeSettings → Result Error (Option ProxyMode)
  unfolding mode_from_settings
  configured_mode s = elim (mode_from_settings s) [
    | err e ↦ err e
    | ok mode ↦ ok (if has_written_value s || not (is_direct mode) then some mode else none)
  ]
