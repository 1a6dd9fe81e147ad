-- ===== src/Dict/Bypass.antt =====
-- src/sys/proxy_dict.rs: the bypass list of the dictionary.
use proxy_watch.Bypass.Match.{cf_network, nothing}
use proxy_watch.Bypass.Pattern.{mac_os}
use proxy_watch.Bypass.Rules
use proxy_watch.Bypass.Rules.{BypassRules, push_entry_in, dedup_patterns}
use proxy_watch.Crates.{Crates}
use proxy_watch.Diagnostic
use proxy_watch.Diagnostic.{RejectedValue, unsupported_mapping, system_configuration}
use proxy_watch.Dict.Values.{
  ProxyDict, flag, flag_is_unusable, list, list_is_unusable, unreadable_text,
}
use proxy_watch.Prelude.{
  ℕ, zero, suc, ◌-◌, Bool, true, false, not, ◌&&◌, ◌||◌, Option, none, some, List, [], ◌∷◌, ◌++◌,
  if◌then◌else◌, all, is_nil, length, leb, ltb, unwrap_or,
}
use proxy_watch.Text.{Text, lit, has, is_digit, split, split_once}

abbrev pub exceptions_list : Text
exceptions_list = lit "ExceptionsList"

abbrev pub exclude_simple : Text
exclude_simple = lit "ExcludeSimpleHostnames"

abbrev pub is_dot : ℕ → Bool
is_dot c = proxy_watch.Prelude.◌==◌ c b'.'

abbrev pub is_octet : Text → Bool
is_octet t = not (is_nil t) && all is_digit t

-- As many `.0` as are missing.
abbrev pub zeros : ℕ → Text
zeros zero = []
zeros (suc n) = b'.' ∷ b'0' ∷ zeros n

pad_address : Text → Text → Text → Text
pad_address entry address prefix =
    let octets = split is_dot address in
    if leb 4 (length octets) || not (all is_octet octets)
    then entry
    else (address ++ zeros (4 - length octets)) ++ b'/' ∷ prefix

-- An address of fewer than four octets, before a prefix length, gets zeros for the rest.
unfoldable pub expand_abbreviated_cidr : Text → Text
unfolding pad_address
expand_abbreviated_cidr entry = elim (split_once b'/' entry) [
  | none ↦ entry
  | some r ↦
      if has b':' r.0 || is_nil r.1 || not (all is_digit r.1)
      then entry
      else pad_address entry r.0 r.1
]

is_true : Option Bool → Bool
is_true (some true) = true
is_true _ = false

abbrev has_items : Option (List Text × ℕ) → Bool
has_items none = false
has_items (some r) = not (is_nil r.0) || ltb 0 r.1

unfoldable pub has_bypass_key : ProxyDict → Bool
unfolding is_true
has_bypass_key d = has_items (list d exceptions_list) || is_true (flag d exclude_simple)

abbrev lost_value : Text → Text → RejectedValue
lost_value key value = Diagnostic.new unsupported_mapping (system_configuration key) value

abbrev lost_some : Text → Option Text → List RejectedValue
lost_some key none = []
lost_some key (some value) = lost_value key value ∷ []

-- One drop for each item that is no string.
abbrev lost_items : ℕ → List RejectedValue
lost_items zero = []
lost_items (suc n) = lost_value exceptions_list unreadable_text ∷ lost_items n

abbrev rejecting : List RejectedValue → BypassRules → BypassRules
rejecting more r = record r { rejected = r.rejected ++ more }

exclude_simple_names : ProxyDict → Option Bool → BypassRules → BypassRules
exclude_simple_names d (some true) r = record r { exclude_simple_hostnames = true }
exclude_simple_names d _ r =
    rejecting (lost_some exclude_simple (flag_is_unusable d exclude_simple)) r

module _ ⦃crates : Crates⦄ where
  unfoldable pub push_exceptions : List Text → BypassRules → BypassRules
  unfolding expand_abbreviated_cidr
  push_exceptions [] r = r
  push_exceptions (entry ∷ entries) r =
      push_exceptions entries (push_entry_in (expand_abbreviated_cidr entry) mac_os r)

  unfoldable pub bypass_from_dict : ProxyDict → BypassRules
  unfolding push_exceptions exclude_simple_names has_bypass_key
  bypass_from_dict d =
      let entries = unwrap_or (list d exceptions_list) ([], 0) in
      let empty = record Rules.new {
        strip_trailing_dot = true;
        ipv4_mapped_as_ipv4 = false;
        implicit = if has_bypass_key d then cf_network else nothing;
      } in
      let noted =
        rejecting (lost_some exceptions_list (list_is_unusable d exceptions_list)) empty in
      exclude_simple_names d (flag d exclude_simple)
        (rejecting (lost_items entries.1) (dedup_patterns (push_exceptions entries.0 noted)))
