-- ===== src/Bypass/Gnome.antt =====
-- GNOME's `ignore-hosts`: `glib_mask`, `glib_name` and `push_gnome_entries`.
use proxy_watch.Bypass.Pattern.{cidr, gnome, local_token, no_loopback_token, trim_entry}
use proxy_watch.Bypass.Rules.{BypassRules, push_pattern, push_entry_in}
use proxy_watch.Crates.{Host, ipv4, IpNet, Crates}
use proxy_watch.Diagnostic
use proxy_watch.Diagnostic.{invalid_bypass_pattern, bypass_list}
use proxy_watch.Endpoint.{parse_host}
use proxy_watch.Prelude.{
  ℕ, Bool, true, false, not, ◌&&◌, ◌||◌, Option, none, some, List, [], ◌∷◌, ◌++◌, if◌then◌else◌,
  all, is_nil, is_some, and_then, or_option, unwrap_or,
}
use proxy_watch.Prelude.Result.{Result, ok, err, ok_or, ◌>>=◌}
use proxy_watch.Reason.{Reason}
use proxy_watch.Text.{
  Text, lit, is_digit, is_ascii, eq_ignore_case, has, split_once, strip_prefix, ends_with,
}
use proxy_watch.Text.Address.{IpAddr, v4, v6, ip_eq, parse_ip}
use proxy_watch.Text.Number.{parse_uint}

-- Why GLib does not match a name.
pub data Refusal : Type 0 where
  unclosed_bracket bracket_without_port bad_port after_empty_name wininet_token : Refusal
  not_ascii trailing_dot not_a_mask not_inet_pton : Refusal

abbrev full_prefix : IpAddr → ℕ
full_prefix (v4 _) = 32
full_prefix (v6 _) = 128

-- The prefix length: the whole address where there is no slash.
mask_prefix : IpAddr → Option Text → Option ℕ
mask_prefix address none = some (full_prefix address)
mask_prefix address (some text) =
    if not (is_nil text) && all is_digit text then parse_uint 256 text else none

-- A bracketed name, an address or a name with a port, or a name alone.
split_name : Text → Result Refusal (Text × Option Text)
split_name entry = elim (strip_prefix (lit "[") entry) [
  | some inner ↦ (do
    r ← ok_or unclosed_bracket (split_once b']' inner)
    port ← ok_or bracket_without_port (strip_prefix (lit ":") r.1)
    ok (r.0, some port))
  | none ↦ elim (split_once b':' entry) [
    | none ↦ ok (entry, none)
    | some r ↦ if has b':' r.1 then ok (entry, none) else ok (r.0, some r.1)
  ]
]

abbrev is_number : Option Text → Bool
is_number none = true
is_number (some port) = all is_digit port

unfoldable pub glib_name : Text → Result Refusal Text
unfolding split_name
glib_name entry = do
  parts ← split_name entry
  if not (is_number parts.1)
      then err bad_port
      else if is_some (parse_ip parts.0)
      then ok parts.0
      else ok (
          unwrap_or (or_option (strip_prefix (lit "*.") parts.0) (strip_prefix (lit ".") parts.0))
            parts.0)

abbrev is_ipv4 : Result Reason Host → Bool
is_ipv4 (ok (ipv4 _)) = true
is_ipv4 _ = false

module _ ⦃crates : Crates⦄ where
  -- The network, if no bit is set behind its prefix.
  exact_net : IpAddr → Option IpNet → Option IpNet
  exact_net address none = none
  exact_net address (some net) = if ip_eq (crates.net_trunc net) address then some net else none

  mask_of : Option IpAddr → Option Text → Option IpNet
  unfolding mask_prefix exact_net
  mask_of none prefix = none
  mask_of (some address) prefix =
      and_then (mask_prefix address prefix) (λ p. exact_net address (crates.net_new address p))

  unfoldable pub glib_mask : Text → Option IpNet
  unfolding mask_of
  glib_mask entry = elim (split_once b'/' entry) [
    | some r ↦ mask_of (parse_ip r.0) (some r.1)
    | none ↦ mask_of (parse_ip entry) none
  ]

  -- The refusal of a name, and whether GLib stops reading names here.
  name_refusal : Bool → Text → Option Refusal
  name_refusal names_ended name =
      if names_ended
      then some after_empty_name
      else if eq_ignore_case name local_token || eq_ignore_case name no_loopback_token
      then some wininet_token
      else if not (is_ascii name)
      then some not_ascii
      else if ends_with (lit ".") name
      then some trailing_dot
      else if has b'/' name
      then some not_a_mask
      else if not (is_some (parse_ip name)) && is_ipv4 (parse_host name)
      then some not_inet_pton
      else none

  name_verdict : Bool → Result Refusal Text → Option Refusal × Bool
  unfolding name_refusal
  name_verdict names_ended (err reason) = (some reason, names_ended)
  name_verdict names_ended (ok []) = (none, true)
  name_verdict names_ended (ok (c ∷ name)) = (name_refusal names_ended (c ∷ name), names_ended)

  take_name : Text → Option Refusal × Bool → BypassRules → BypassRules
  take_name entry (some reason, ended) r = record r {
    rejected = r.rejected ++ Diagnostic.new invalid_bypass_pattern bypass_list entry ∷ [];
  }
  take_name entry (none, ended) r = if ended && is_nil entry then r else push_entry_in entry gnome r

  unfoldable pub push_gnome_from : Bool → List Text → BypassRules → BypassRules
  unfolding glib_mask glib_name name_verdict take_name push_pattern
  push_gnome_from names_ended [] r = r
  push_gnome_from names_ended (raw ∷ entries) r =
      let entry = trim_entry gnome raw in
      let verdict = name_verdict names_ended (glib_name entry) in
      elim (glib_mask entry) [
        | some net ↦ push_gnome_from names_ended entries (push_pattern (cidr net) r)
        | none ↦ push_gnome_from verdict.1 entries (take_name entry verdict r)
      ]

  unfoldable pub push_gnome_entries : List Text → BypassRules → BypassRules
  unfolding push_gnome_from
  push_gnome_entries = push_gnome_from false
