-- ===== src/Bypass/Parse/Body.antt =====
-- The steps of `parse_in` after the port is split off: the guards on the host, its labels and its
-- suffix, and the patterns that are built.
use proxy_watch.Bypass.Parse.Flow.{Parsed, Flow, return, go, ◌>>◌, refuse_if, found}
use proxy_watch.Bypass.Pattern.{
  exact, suffix, wildcard, BypassDialect, windows, mac_os, gnome, kde, is_forbidden_host_char,
}
use proxy_watch.Crates.{Host, domain, ipv4, ipv6, Crates}
use proxy_watch.Endpoint.{parse_host}
use proxy_watch.Error.{bypass}
use proxy_watch.Prelude.{
  ℕ, Bool, true, false, not, ◌&&◌, ◌||◌, Option, none, some, [], ◌∷◌, ◌++◌, ◌==◌, ltb,
  if◌then◌else◌, any, all, find, is_nil, is_some, length, map_option, or_option, unwrap_or,
}
use proxy_watch.Prelude.Result.{Result, ok, err}
use proxy_watch.Reason.{
  Reason, trailing_dot, macos_port, bad_bracketed, forbidden_char, empty_label,
  subdomain_of_address, unreachable_name, gnome_literal_star, macos_literal_star, not_decimal_ipv4,
}
use proxy_watch.Text.{
  Text, lit, is_digit, has, split, strip_prefix, strip_suffix, starts_with, ends_with,
  without_suffix, trim_with,
}
use proxy_watch.Text.Address.{IpAddr, v4, v6, parse_ip}

abbrev dot : Text
dot = lit "."

abbrev is_gnome : BypassDialect → Bool
is_gnome gnome = true
is_gnome _ = false

abbrev is_mac_os : BypassDialect → Bool
is_mac_os mac_os = true
is_mac_os _ = false

-- A trailing dot is part of the name for Windows and KDE.
abbrev compares_dot : BypassDialect → Bool
compares_dot windows = true
compares_dot kde = true
compares_dot _ = false

-- A bare name is one host for Windows and macOS.
abbrev is_bare_exact : BypassDialect → Bool
is_bare_exact windows = true
is_bare_exact mac_os = true
is_bare_exact _ = false

abbrev reads_decimal : BypassDialect → Bool
reads_decimal windows = true
reads_decimal mac_os = true
reads_decimal kde = true
reads_decimal _ = false

abbrev is_address : Result Reason Host → Bool
is_address (ok (ipv4 _)) = true
is_address (ok (ipv6 _)) = true
is_address _ = false

abbrev refuse_char : Text → Option ℕ → Flow (Unit {0})
refuse_char entry none = go tt
refuse_char entry (some c) = return (err (bypass entry (forbidden_char c)))

-- What stands after a leading `*.` or dot.
abbrev subdomain_body : Text → Option Text
subdomain_body t = or_option (strip_prefix (lit "*.") t) (strip_prefix dot t)

unfoldable pub guard_labels : Text → Text → Flow (Unit {0})
guard_labels entry host_text =
    let labelled = without_suffix dot (unwrap_or (subdomain_body host_text) host_text) in
    refuse_if (not (is_nil labelled) && any is_nil (split (λ c. c == b'.') labelled)) entry
      empty_label

abbrev count_dots : Text → ℕ
count_dots [] = 0
count_dots (c ∷ cs) = elim (c == b'.') [
  | true ↦ Prim.Native.Nat.suc (count_dots cs)
  | false ↦ count_dots cs
]

-- A glob that could be laid over a dotted quad.
fits_a_dotted_quad : Text → Bool
fits_a_dotted_quad body =
    has b'*' body && ltb (count_dots body) 3 && all (λ b. is_digit b || b == b'.' || b == b'*') body

suffix_verdict : Text → Text → Result Reason Host → Flow (Unit {0})
unfolding fits_a_dotted_quad
suffix_verdict entry body (ok (domain d)) = go tt
suffix_verdict entry body (ok _) = return (err (bypass entry subdomain_of_address))
suffix_verdict entry body (err _) = refuse_if (not (fits_a_dotted_quad body)) entry unreachable_name

-- macOS reads a star only as a trailing `.*` behind a name.
macos_star : Text → Text → Option ℕ → Option Text → Parsed
macos_star entry host_text port none = err (bypass entry macos_literal_star)
macos_star entry host_text port (some head) =
    if not (is_nil head) && not (has b'*' head) && not (starts_with dot head)
    then found (wildcard (head ++ lit ".*") port)
    else err (bypass entry macos_literal_star)

build_glob : BypassDialect → Text → Text → Option ℕ → Parsed
unfolding macos_star
build_glob gnome entry host_text port = err (bypass entry gnome_literal_star)
build_glob mac_os entry host_text port =
    macos_star entry host_text port (strip_suffix (lit ".*") host_text)
build_glob _ entry host_text port =
    found (wildcard (if starts_with dot host_text then b'*' ∷ host_text else host_text) port)

-- The arm behind a leading `*.`, for what stands after it.
star_body : BypassDialect → Text → Option ℕ → Text → Parsed
star_body dialect entry port rest =
    if is_nil rest
    then ok none
    else if not (has b'*' rest)
    then found (suffix (b'.' ∷ rest) (is_gnome dialect) port)
    else if is_gnome dialect
    then err (bypass entry gnome_literal_star)
    else if is_mac_os dialect
    then err (bypass entry macos_literal_star)
    else found (wildcard (lit "*." ++ rest) port)

unfoldable pub build_star : BypassDialect → Text → Option ℕ → Text → Flow (Unit {0})
unfolding star_body
build_star dialect entry port host_text = elim (strip_prefix (lit "*.") host_text) [
  | none ↦ go tt
  | some rest ↦ return (star_body dialect entry port (without_suffix dot rest))
]

abbrev as_host : IpAddr → Host
as_host (v4 a) = ipv4 a
as_host (v6 a) = ipv6 a

build_suffix : BypassDialect → Text → Option ℕ → Text → Parsed
build_suffix dialect host_text port rest =
    if is_nil rest then ok none else found (suffix host_text (is_gnome dialect) port)

-- The last arms: a name or a folded address.
build_name : BypassDialect → Text → Text → Option ℕ → Result Reason Host → Parsed
build_name dialect entry host_text port (err _) = err (bypass entry unreachable_name)
build_name dialect entry host_text port (ok (ipv4 a)) =
    if reads_decimal dialect
    then err (bypass entry not_decimal_ipv4)
    else found (exact (ipv4 a) port)
build_name dialect entry host_text port (ok host) =
    if is_bare_exact dialect
    then found (exact host port)
    else found (suffix (b'.' ∷ host_text) true port)

module _ ⦃crates : Crates⦄ where
  unfoldable pub guard_host : BypassDialect → Text → Text → Text → Option ℕ → Flow (Unit {0})
  guard_host dialect entry bracketed host_text port = do
    refuse_if
        (compares_dot dialect
          && ends_with dot host_text
          && not (is_nil (trim_with (λ c. c == b'*' || c == b'.') host_text)))
        entry trailing_dot
    refuse_if (is_mac_os dialect && is_some port) entry macos_port
    refuse_if
        (not (length host_text == length bracketed) && not (is_address (parse_host host_text)))
        entry bad_bracketed
    refuse_char entry (find is_forbidden_host_char host_text)

  unfoldable pub guard_suffix : Text → Text → Flow (Unit {0})
  unfolding suffix_verdict
  guard_suffix entry host_text = elim (map_option (without_suffix dot) (subdomain_body host_text)) [
    | none ↦ go tt
    | some body ↦ if is_nil body then go tt else suffix_verdict entry body (parse_host body)
  ]

  build_plain : BypassDialect → Text → Text → Option ℕ → Parsed
  unfolding build_suffix build_name
  build_plain dialect entry host_text port = elim (strip_prefix dot host_text) [
    | some rest ↦ build_suffix dialect host_text port rest
    | none ↦ build_name dialect entry host_text port (parse_host host_text)
  ]

  unfoldable pub build_bare : BypassDialect → Text → Option ℕ → Text → Parsed
  unfolding build_glob build_plain
  build_bare dialect entry port with_dot =
      let host_text = without_suffix dot with_dot in
      if is_nil host_text then ok none else elim (parse_ip host_text) [
        | some ip ↦ found (exact (as_host ip) port)
        | none ↦
            if has b'*' host_text
            then build_glob dialect entry host_text port
            else build_plain dialect entry host_text port
      ]
