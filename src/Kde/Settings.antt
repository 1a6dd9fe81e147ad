-- ===== src/Kde/Settings.antt =====
-- src/sys/linux/kioslaverc.rs: the entries of `[Proxy Settings]`, with KConfig's flags, and their
-- readers.
use proxy_watch.Prelude.{
  ℕ, Bool, true, false, not, ◌&&◌, ◌||◌, Option, none, some, List, [], ◌∷◌, if◌then◌else◌, any,
  is_nil, is_some, and_then,
}
use proxy_watch.Scheme.{Scheme, ProxyScheme}
use proxy_watch.Text.{
  Text, lit, has, is_ascii_whitespace, trim_with, text_eq, eq_ignore_case, find_text, split_once,
  ends_with,
}

abbrev pub file_name : Text
file_name = lit "kioslaverc"

abbrev pub section : Text
section = lit "Proxy Settings"

abbrev pub key_proxy_type : Text
key_proxy_type = lit "ProxyType"

abbrev pub key_no_proxy_for : Text
key_no_proxy_for = lit "NoProxyFor"

abbrev pub key_reversed_exception : Text
key_reversed_exception = lit "ReversedException"

abbrev pub key_config_script : Text
key_config_script = lit "Proxy Config Script"

abbrev pub trim_ascii : Text → Text
trim_ascii = trim_with is_ascii_whitespace

pub record SlotKeys : Type 0 where
  pub scheme : Scheme
  pub key : Text
  pub env_var : Option Text
  pub default_port : ℕ
  pub hint : Option ProxyScheme

abbrev pub http_slot : SlotKeys
http_slot = record {
  scheme = Scheme.http;
  key = lit "httpProxy";
  env_var = some (lit "http_proxy");
  default_port = 8080;
  hint = none;
}

abbrev pub https_slot : SlotKeys
https_slot = record {
  scheme = Scheme.https;
  key = lit "httpsProxy";
  env_var = some (lit "https_proxy");
  default_port = 8080;
  hint = none;
}

abbrev pub ftp_slot : SlotKeys
ftp_slot = record {
  scheme = Scheme.ftp;
  key = lit "ftpProxy";
  env_var = some (lit "ftp_proxy");
  default_port = 8080;
  hint = none;
}

abbrev pub socks_slot : SlotKeys
socks_slot = record {
  scheme = Scheme.socks;
  key = lit "socksProxy";
  env_var = none;
  default_port = 1080;
  hint = some ProxyScheme.socks5;
}

abbrev pub slots : List SlotKeys
slots = http_slot ∷ https_slot ∷ ftp_slot ∷ socks_slot ∷ []

-- A deleted entry stays, as one with no value.
pub record KconfigEntry : Type 0 where
  pub value : Option Text
  pub immutable : Bool
  pub expand : Bool

pub record KioslavercSettings : Type 0 where
  pub entries : Text → Option KconfigEntry
  pub group_immutable : Bool

abbrev pub new : KioslavercSettings
new = record { entries = λ k. none; group_immutable = false }

without_flags : Text → Text
without_flags key = elim (find_text (lit "[$") key) [
  | some (name, flags) ↦ if ends_with (lit "]") key then name else key
  | none ↦ key
]

unfoldable pub normalize_key : Text → Text
unfolding without_flags
normalize_key key = without_flags (trim_ascii key)

-- The flags of `key[$flags]`.
unfoldable pub kconfig_flags : Text → Text
kconfig_flags name = elim (find_text (lit "[$") name) [
  | none ↦ []
  | some (key, tail) ↦ elim (split_once b']' tail) [ none ↦ [] | some (flags, rest) ↦ flags ]
]

unfoldable pub has_kconfig_flag : Text → ℕ → Bool
unfolding kconfig_flags
has_kconfig_flag name flag = has flag (kconfig_flags name)

-- The immutable flag counts only in front of a deletion.
immutable_flag : Text → Bool
immutable_flag flags = elim (split_once b'd' flags) [
  | none ↦ has b'i' flags
  | some (before, after) ↦ has b'i' before
]

abbrev put : Text → KconfigEntry → KioslavercSettings → KioslavercSettings
put key e s = record s { entries = λ k. if text_eq key k then some e else s.entries k }

unfoldable pub insert : Text → Text → KioslavercSettings → KioslavercSettings
unfolding normalize_key has_kconfig_flag
insert key value s =
    put (normalize_key key)
      (record { value = some value; immutable = false; expand = has_kconfig_flag key b'e' }) s

abbrev pub frozen : KioslavercSettings → Text → Bool
frozen s key = elim (s.entries key) [ none ↦ false | some e ↦ e.immutable ]

-- The entry that a row of a file records.
entry_of : Text → Option Text → Bool → KconfigEntry
unfolding has_kconfig_flag immutable_flag
entry_of raw_key value locked =
    let flags = kconfig_flags raw_key in
    record {
      value = if has b'd' flags then none else value;
      immutable = locked || immutable_flag flags;
      expand = has_kconfig_flag raw_key b'e';
    }

unfoldable pub apply : Text → Option Text → Bool → KioslavercSettings → KioslavercSettings
unfolding normalize_key entry_of
apply raw_key value locked s =
    let key = normalize_key raw_key in
    if frozen s key then s else put key (entry_of raw_key value locked) s

unfoldable pub mark_group_immutable : KioslavercSettings → KioslavercSettings
mark_group_immutable s = record s { group_immutable = true }

abbrev filled : Text → Option Text
filled t = if is_nil t then none else some t

-- An empty value reads as none.
unfoldable pub text : KioslavercSettings → Text → Option Text
text s key = and_then (and_then (s.entries key) (λ e. e.value)) filled

-- A value that KDE would expand from the environment, and the program does not.
unfoldable pub needs_expansion : KioslavercSettings → Text → Bool
needs_expansion s key = elim (s.entries key) [
  | none ↦ false
  | some e ↦ e.expand && elim e.value [ none ↦ false | some v ↦ has b'$' v ]
]

unfoldable pub has_key : KioslavercSettings → Text → Bool
has_key s key = elim (s.entries key) [ none ↦ false | some e ↦ is_some e.value ]

abbrev kconfig_false : List Text
kconfig_false = lit "false" ∷ lit "no" ∷ lit "off" ∷ lit "0" ∷ []

unfoldable pub reversed_exception : KioslavercSettings → Bool
reversed_exception s = elim (text s key_reversed_exception) [
  | none ↦ false
  | some value ↦ not (any (λ n. eq_ignore_case value n) kconfig_false)
]
