-- ===== src/Bypass/Pattern.antt =====
-- `HostPattern`, `BypassDialect`, the tokens, and the small helpers on hosts and ports.
use proxy_watch.Crates.{Host, domain, ipv4, ipv6, IpNet, Crates}
use proxy_watch.Prelude.{
  ℕ, Bool, ◌||◌, Option, none, some, List, [], ◌∷◌, ◌++◌, ◌==◌, if◌then◌else◌,
}
use proxy_watch.Prelude.Result.{Result, ok, err, ◌>>=◌}
use proxy_watch.Reason.{Reason, idna_glob, idna_invalid}
use proxy_watch.Text.{
  Text, lit, lower, is_ascii, is_control, is_whitespace, is_ascii_whitespace, has, split,
  strip_suffix, trim_end, trim_with,
}
use proxy_watch.Text.Address.{IpAddr, v4, v6, show_ipv4, show_ipv6}

pub data HostPattern : Type 0 where
  all_hosts : HostPattern
  cidr : IpNet → HostPattern
  exact : Host → Option ℕ → HostPattern
  -- the suffix, whether the bare domain matches too, and the port
  suffix : Text → Bool → Option ℕ → HostPattern
  wildcard : Text → Option ℕ → HostPattern
  local subtract_implicit : HostPattern

-- The list that an entry comes from; `suffixes` is the source's `Suffix`.
pub data BypassDialect : Type 0 where
  suffixes windows mac_os gnome kde : BypassDialect

abbrev pub local_token : Text
local_token = lit "<local>"

abbrev pub no_loopback_token : Text
no_loopback_token = lit "<-loopback>"

abbrev windows_blank : ℕ → Bool
windows_blank c = c == 9 || c == 10 || c == 11 || c == 12 || c == 13 || c == 32

unfoldable pub trim_entry : BypassDialect → Text → Text
trim_entry gnome t = trim_end is_ascii_whitespace t
trim_entry mac_os t = t
trim_entry windows t = trim_with windows_blank t
trim_entry _ t = trim_with is_whitespace t

unfoldable pub is_forbidden_host_char : ℕ → Bool
is_forbidden_host_char c =
    is_control c
    || c == b'#'
    || c == b'%'
    || c == b'<'
    || c == b'>'
    || c == b'?'
    || c == b'['
    || c == b'\\'
    || c == b']'
    || c == b'^'
    || c == b'|'

-- The domain that ends in the borrowed label, without it.
abbrev unborrowed : Option Host → Option Text
unborrowed (some (domain d)) = strip_suffix (lit ".a") d
unborrowed _ = none

module _ ⦃crates : Crates⦄ where
  -- One label of `idna_ascii`: ASCII stays, other text goes through the host parser.
  idna_label : Text → Result Reason Text
  idna_label label =
      if is_ascii label
      then ok label
      else if has b'*' label
      then err idna_glob
      else elim (unborrowed (crates.host_parse (label ++ lit ".a"))) [
        | some ascii ↦ ok ascii
        | none ↦ err idna_invalid
      ]

  idna_labels : List Text → Result Reason Text
  idna_labels [] = ok []
  idna_labels (l ∷ []) = idna_label l
  idna_labels (l ∷ m ∷ ls) =
      let rest = idna_labels (m ∷ ls) in do a ← idna_label l; b ← rest; ok (a ++ (b'.' ∷ b))

  unfoldable pub idna_ascii : Text → Result Reason Text
  unfolding idna_label idna_labels
  idna_ascii t = idna_labels (split (λ c. c == b'.') t)

  -- The text that an entry is compared with.
  unfoldable pub host_key : Host → Text
  host_key (domain d) =
      if is_ascii d then lower d else elim (idna_ascii d) [ ok t ↦ lower t | err _ ↦ lower d ]
  host_key (ipv4 a) = show_ipv4 a
  host_key (ipv6 a) = show_ipv6 a

abbrev pub host_ip : Host → Option IpAddr
host_ip (domain d) = none
host_ip (ipv4 a) = some (v4 a)
host_ip (ipv6 a) = some (v6 a)
