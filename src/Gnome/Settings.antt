-- ===== src/Gnome/Settings.antt =====
-- src/sys/linux/gsettings_map.rs: the values of the GNOME settings, with their readers.
use proxy_watch.Prelude.{
  ℕ, Bool, not, Option, none, some, List, [], ◌∷◌, ◌++◌, ◌==◌, if◌then◌else◌, is_nil, and_then,
}
use proxy_watch.Prelude.Integer.{ℤ, try_unsigned}
use proxy_watch.Scheme.{Scheme, ProxyScheme}
use proxy_watch.Text.{Text, lit, is_whitespace, trim_with, text_eq}
use proxy_watch.Util.HostPort.{u16_mod}

abbrev pub key_mode : Text
key_mode = lit "mode"

abbrev pub key_autoconfig_url : Text
key_autoconfig_url = lit "autoconfig-url"

abbrev pub key_ignore_hosts : Text
key_ignore_hosts = lit "ignore-hosts"

abbrev pub key_use_same_proxy : Text
key_use_same_proxy = lit "use-same-proxy"

abbrev pub key_host : Text
key_host = lit "host"

abbrev pub key_port : Text
key_port = lit "port"

abbrev pub key_use_authentication : Text
key_use_authentication = lit "use-authentication"

abbrev pub key_authentication_user : Text
key_authentication_user = lit "authentication-user"

abbrev pub key_authentication_password : Text
key_authentication_password = lit "authentication-password"

pub record ChildKeys : Type 0 where
  pub scheme : Scheme
  pub child : Text
  pub default_port : ℕ
  pub hint : Option ProxyScheme

abbrev pub http_child : ChildKeys
http_child = record { scheme = Scheme.http; child = lit "http"; default_port = 8080; hint = none }

abbrev pub https_child : ChildKeys
https_child = record {
  scheme = Scheme.https;
  child = lit "https";
  default_port = 8080;
  hint = none;
}

abbrev pub ftp_child : ChildKeys
ftp_child = record { scheme = Scheme.ftp; child = lit "ftp"; default_port = 8080; hint = none }

abbrev pub socks_child : ChildKeys
socks_child = record {
  scheme = Scheme.socks;
  child = lit "socks";
  default_port = 1080;
  hint = some ProxyScheme.socks5;
}

pub data GValue : Type 0 where
  g_text : Text → GValue
  g_int : ℤ → GValue
  g_flag : Bool → GValue
  g_list : List Text → GValue

-- The map of the values, and the keys that a user wrote a value under.
pub record GnomeSettings : Type 0 where
  pub entries : Text → Option GValue
  pub written_values : List Text

abbrev pub new : GnomeSettings
new = record { entries = λ k. none; written_values = [] }

unfoldable pub insert : Text → GValue → GnomeSettings → GnomeSettings
insert key value s = record s { entries = λ k. if text_eq key k then some value else s.entries k }

unfoldable pub mark_written : Text → GnomeSettings → GnomeSettings
mark_written key s = record s { written_values = key ∷ s.written_values }

abbrev pub child_key : Text → Text → Text
child_key child key = child ++ b'.' ∷ key

unfoldable pub has_written_value : GnomeSettings → Bool
has_written_value s = not (is_nil s.written_values)

text_of : GValue → Option Text
text_of (g_text t) = let u = trim_with is_whitespace t in if is_nil u then none else some u
text_of _ = none

unfoldable pub text : GnomeSettings → Text → Option Text
unfolding text_of
text s key = and_then (s.entries key) text_of

flag_of : GValue → Option Bool
flag_of (g_flag b) = some b
flag_of _ = none

unfoldable pub flag : GnomeSettings → Text → Option Bool
unfolding flag_of
flag s key = and_then (s.entries key) flag_of

abbrev nonzero : ℕ → Option ℕ
nonzero n = if n == 0 then none else some n

port_of : GValue → Option ℕ
port_of (g_int value) = and_then (try_unsigned u16_mod value) nonzero
port_of _ = none

unfoldable pub port : GnomeSettings → Text → Option ℕ
unfolding port_of
port s key = and_then (s.entries key) port_of

list_of : GValue → Option (List Text)
list_of (g_list items) = some items
list_of _ = none

unfoldable pub list : GnomeSettings → Text → Option (List Text)
unfolding list_of
list s key = and_then (s.entries key) list_of
