-- ===== src/Dict/Schemes.antt =====
-- src/sys/proxy_dict.rs: the schemes of the dictionary, each read to an entry of the map, and the
-- enabled proxies that no scheme stands for.
pub mod Silence
use proxy_watch.Auth.{from_username, password_in_keychain}
use proxy_watch.Crates.{Crates}
use proxy_watch.Diagnostic
use proxy_watch.Diagnostic.{
  RejectedValue, RejectionKind, invalid_proxy_endpoint, unknown_proxy_scheme, unsupported_mapping,
  system_configuration, for_scheme,
}
use proxy_watch.Dict.Values.{
  ProxyDict, flag, flag_is_unusable, text, text_is_unusable, port, port_is_unusable,
}
use proxy_watch.Endpoint.{
  ProxyEndpoint, ProxyEntry, use_endpoint, disabled, parse_endpoint, with_scheme_hint, with_auth,
}
use proxy_watch.Mode.Table.{Slots, get, insert}
use proxy_watch.Prelude.{
  ℕ, Bool, true, false, Option, none, some, List, [], ◌∷◌, ◌++◌, if◌then◌else◌, is_some, is_nil,
}
use proxy_watch.Prelude.Result.{ok, err}
use proxy_watch.Scheme.{Scheme, ProxyScheme, scheme_eq}
use proxy_watch.Text.{Text, lit}

pub record SchemeKeys : Type 0 where
  pub scheme : Scheme
  pub enable : Text
  pub host : Text
  pub port : Text
  pub user : Text
  pub default_port : ℕ
  pub hint : Option ProxyScheme

abbrev pub http_keys : SchemeKeys
http_keys = record {
  scheme = Scheme.http;
  enable = lit "HTTPEnable";
  host = lit "HTTPProxy";
  port = lit "HTTPPort";
  user = lit "HTTPUser";
  default_port = 80;
  hint = none;
}

abbrev pub https_keys : SchemeKeys
https_keys = record {
  scheme = Scheme.https;
  enable = lit "HTTPSEnable";
  host = lit "HTTPSProxy";
  port = lit "HTTPSPort";
  user = lit "HTTPSUser";
  default_port = 443;
  hint = none;
}

abbrev pub ftp_keys : SchemeKeys
ftp_keys = record {
  scheme = Scheme.ftp;
  enable = lit "FTPEnable";
  host = lit "FTPProxy";
  port = lit "FTPPort";
  user = lit "FTPUser";
  default_port = 80;
  hint = none;
}

abbrev pub socks_keys : SchemeKeys
socks_keys = record {
  scheme = Scheme.socks;
  enable = lit "SOCKSEnable";
  host = lit "SOCKSProxy";
  port = lit "SOCKSPort";
  user = lit "SOCKSUser";
  default_port = 1080;
  hint = some ProxyScheme.socks5;
}

abbrev pub dict_schemes : List SchemeKeys
dict_schemes = http_keys ∷ https_keys ∷ ftp_keys ∷ socks_keys ∷ []

pub record UnroutableKeys : Type 0 where
  pub enable : Text
  pub host : Text

abbrev pub unroutable : List UnroutableKeys
unroutable =
    record { enable = lit "GopherEnable"; host = lit "GopherProxy" }
    ∷ record { enable = lit "RTSPEnable"; host = lit "RTSPProxy" }
    ∷ []

abbrev pub drop_at : RejectionKind → Text → Option Scheme → Text → RejectedValue
drop_at kind key scheme value =
    for_scheme scheme (Diagnostic.new kind (system_configuration key) value)

-- The drop of a value that is there and unusable.
abbrev drop_unusable : Text → Option Scheme → Option Text → List RejectedValue
drop_unusable key scheme none = []
drop_unusable key scheme (some value) = drop_at unsupported_mapping key scheme value ∷ []

-- `record_unreadable_flag` and `record_unreadable_text`, by what they push.
unfoldable pub unreadable_flag : ProxyDict → Text → Option Scheme → List RejectedValue
unfolding flag_is_unusable
unreadable_flag d key scheme = drop_unusable key scheme (flag_is_unusable d key)

unfoldable pub unreadable_text : ProxyDict → Text → Option Scheme → List RejectedValue
unfolding text_is_unusable
unreadable_text d key scheme = drop_unusable key scheme (text_is_unusable d key)

abbrev pub hinted : Option ProxyScheme → ProxyEndpoint → ProxyEndpoint
hinted none e = e
hinted (some hint) e = if is_some e.scheme_hint then e else with_scheme_hint hint e

abbrev pub named_user : Option Text → ProxyEndpoint → ProxyEndpoint
named_user none e = e
named_user (some user) e = with_auth (password_in_keychain (from_username user)) e

-- The entries, the drops, and whether an entry is in use.
pub record Reading : Type 0 where
  pub per_scheme : Slots
  pub rejected : List RejectedValue
  pub any_enabled : Bool

abbrev pub dropping : List RejectedValue → Reading → Reading
dropping more r = record r { rejected = r.rejected ++ more }

-- Losing the SOCKS proxy loses the fallback of every scheme.
abbrev pub attributed_scheme : SchemeKeys → Scheme
attributed_scheme keys = if scheme_eq keys.scheme Scheme.socks then Scheme.all else keys.scheme

abbrev enter : SchemeKeys → ProxyEntry → Reading → Reading
enter keys entry r = record r { per_scheme = insert keys.scheme entry r.per_scheme }

use_scheme : ProxyDict → SchemeKeys → ProxyEndpoint → Reading → Reading
unfolding text
use_scheme d keys e r =
    record (enter keys (use_endpoint (named_user (text d keys.user) (hinted keys.hint e))) r) {
      any_enabled = true;
    }

-- The endpoint with the port of the dictionary. The first argument is that port, the second a value
-- in its place that is no port.
with_port : Option ℕ → Option Text → ProxyDict → SchemeKeys → ProxyEndpoint → Reading → Reading
unfolding use_scheme
with_port (some p) bad d keys e r = use_scheme d keys (record e { port = p }) r
with_port none (some value) d keys e r =
    dropping (drop_at invalid_proxy_endpoint keys.port (some (attributed_scheme keys)) value ∷ []) r
with_port none none d keys e r = use_scheme d keys e r

-- The branches on the flag and the host of a scheme.
module _ ⦃crates : Crates⦄ where
  unfoldable pub read_host : ProxyDict → SchemeKeys → Option Text → Reading → Reading
  unfolding with_port unreadable_text port port_is_unusable
  read_host d keys none r =
      let bad = unreadable_text d keys.host (some (attributed_scheme keys)) in
      if is_nil bad then enter keys disabled r else dropping bad r
  read_host d keys (some host) r = elim (parse_endpoint host keys.default_port) [
    | ok e ↦ with_port (port d keys.port) (port_is_unusable d keys.port) d keys e r
    | err _ ↦
        dropping
          (drop_at invalid_proxy_endpoint keys.host (some (attributed_scheme keys)) host ∷ []) r
  ]

  unfoldable pub read_enabled : ProxyDict → SchemeKeys → Option Bool → Reading → Reading
  unfolding read_host unreadable_flag text
  read_enabled d keys none r =
      dropping (unreadable_flag d keys.enable (some (attributed_scheme keys))) r
  read_enabled d keys (some false) r = enter keys disabled r
  read_enabled d keys (some true) r = read_host d keys (text d keys.host) r

  unfoldable pub read_schemes : ProxyDict → List SchemeKeys → Reading → Reading
  unfolding read_enabled flag
  read_schemes d [] r = r
  read_schemes d (keys ∷ rest) r = read_schemes d rest (read_enabled d keys (flag d keys.enable) r)

abbrev is_in_use : Option ProxyEntry → Bool
is_in_use (some (use_endpoint e)) = true
is_in_use _ = false

abbrev fall_back : ProxyEntry → Scheme → Slots → Slots
fall_back entry scheme m = if is_in_use (get m scheme) then m else insert scheme entry m

-- An enabled SOCKS proxy serves each scheme that has no proxy of its own, also a disabled one.
unfoldable pub apply_socks_fallback : Slots → Slots
apply_socks_fallback m = elim (get m Scheme.socks) [
  | some (use_endpoint e) ↦
      let entry = use_endpoint e in
      fall_back entry Scheme.all
        (fall_back entry Scheme.ftp (fall_back entry Scheme.https (fall_back entry Scheme.http m)))
  | _ ↦ m
]

unroutable_host : ProxyDict → UnroutableKeys → Option Text → List RejectedValue
unfolding unreadable_text
unroutable_host d keys none = unreadable_text d keys.host none
unroutable_host d keys (some host) = drop_at unknown_proxy_scheme keys.host none host ∷ []

unroutable_drops : ProxyDict → UnroutableKeys → Option Bool → List RejectedValue
unfolding unroutable_host unreadable_flag text
unroutable_drops d keys (some true) = unroutable_host d keys (text d keys.host)
unroutable_drops d keys _ = unreadable_flag d keys.enable none

-- `record_unroutable_schemes`, by what it pushes.
unfoldable pub unroutable_schemes : ProxyDict → List UnroutableKeys → List RejectedValue
unfolding unroutable_drops flag
unroutable_schemes d [] = []
unroutable_schemes d (keys ∷ rest) =
    unroutable_drops d keys (flag d keys.enable) ++ unroutable_schemes d rest
