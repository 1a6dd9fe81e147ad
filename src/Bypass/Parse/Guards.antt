-- ===== src/Bypass/Parse/Guards.antt =====
-- The steps of `parse_in` up to the split of the port: tokens, refused shapes and CIDR blocks.
use proxy_watch.Bypass.Parse.Flow.{Flow, return, go, ◌>>◌, refuse_if, found}
use proxy_watch.Bypass.Pattern.{
  HostPattern, all_hosts, cidr, local, subtract_implicit, BypassDialect, windows, mac_os, gnome,
  kde, local_token, no_loopback_token, is_forbidden_host_char,
}
use proxy_watch.Crates.{Host, ipv4, Crates}
use proxy_watch.Endpoint.{parse_host}
use proxy_watch.Error.{bypass}
use proxy_watch.Prelude.{
  ℕ, Bool, true, false, not, ◌&&◌, ◌||◌, Option, none, some, ◌∷◌, ◌++◌, ◌==◌, if◌then◌else◌, any,
  all, is_nil, is_some, length,
}
use proxy_watch.Prelude.Result.{Result, ok, err}
use proxy_watch.Reason.{
  Reason, has_credentials, has_whitespace, names_scheme, windows_slash, windows_leading_dot,
  not_decimal_cidr, bad_cidr,
}
use proxy_watch.Text.{
  Text, lit, is_whitespace, text_eq, has, split, split_once, starts_with, trim_start, contains_text,
}
use proxy_watch.Text.Address.{parse_ip, show_ipv4}

-- `*` stands for every host but in a macOS or GNOME list.
abbrev star_is_all : BypassDialect → Bool
star_is_all mac_os = false
star_is_all gnome = false
star_is_all _ = true

abbrev is_windows : BypassDialect → Bool
is_windows windows = true
is_windows _ = false

abbrev is_mac_or_kde : BypassDialect → Bool
is_mac_or_kde mac_os = true
is_mac_or_kde kde = true
is_mac_or_kde _ = false

unfoldable pub token_entry : BypassDialect → Text → Option HostPattern
token_entry dialect lowered =
    if text_eq lowered (lit "*") && star_is_all dialect
    then some all_hosts
    else if text_eq lowered local_token
    then some local
    else if text_eq lowered no_loopback_token
    then some subtract_implicit
    else none

-- The characters and marks that no entry may hold.
abbrev pub is_rejecting_text : Text → Bool
is_rejecting_text entry = has b'@' entry || any is_whitespace entry

unfoldable pub guard_text : BypassDialect → Text → Text → Flow (Unit {0})
guard_text dialect entry lowered = do
  refuse_if (has b'@' entry) entry has_credentials
  refuse_if (any is_whitespace entry) entry has_whitespace
  refuse_if (contains_text (lit "://") lowered) entry names_scheme
  refuse_if (is_windows dialect && has b'/' lowered) entry windows_slash
  refuse_if
      (is_windows dialect
        && starts_with (lit ".") lowered
        && not (is_nil (trim_start (λ c. c == b'.') lowered)))
      entry windows_leading_dot

module _ ⦃crates : Crates⦄ where
  abbrev as_ipv4 : Result Reason Host → Option ℕ
  as_ipv4 (ok (ipv4 a)) = some a
  as_ipv4 _ = none

  -- The address of a CIDR block that is written as four parts, but not as four decimal octets.
  folded_address : Text → Option ℕ
  folded_address address =
      let parts = split (λ c. c == b'.') address in
      if not (is_some (parse_ip address))
        && length parts == 4
        && all (λ p. not (is_nil p)) parts
        && not (any is_forbidden_host_char address)
      then as_ipv4 (parse_host address)
      else none

  read_folded : BypassDialect → Text → Text → Option ℕ → Flow (Unit {0})
  read_folded dialect entry prefix none = go tt
  read_folded dialect entry prefix (some a) =
      if is_mac_or_kde dialect
      then return (err (bypass entry not_decimal_cidr))
      else elim (crates.net_parse (show_ipv4 a ++ (b'/' ∷ prefix))) [
        | some net ↦ return (found (cidr net))
        | none ↦ go tt
      ]

  unfoldable pub folded_cidr : BypassDialect → Text → Text → Flow (Unit {0})
  unfolding folded_address read_folded
  folded_cidr dialect entry lowered = elim (split_once b'/' lowered) [
    | none ↦ go tt
    | some r ↦ read_folded dialect entry r.1 (folded_address r.0)
  ]

  unfoldable pub read_cidr : Text → Flow (Unit {0})
  read_cidr lowered = elim (crates.net_parse lowered) [
    | some net ↦ return (found (cidr net))
    | none ↦ go tt
  ]

-- After the CIDR readings no slash is left.
unfoldable pub guard_slash : Text → Text → Flow (Unit {0})
guard_slash entry lowered = refuse_if (has b'/' lowered) entry bad_cidr
