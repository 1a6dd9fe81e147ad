-- ===== src/Pac/Hostfn.antt =====
-- src/pac/hostfn.rs: the functions that a script may call on hosts and addresses, and, of
-- src/pac/subprocess.rs, the question of a worker to its parent process. The lookup of a name is an
-- argument, and so is the parent's answer.
pub mod Resolution
pub mod Shell
pub mod Ranges
use Prim.Native.Nat.{◌^◌, bit_and}
use proxy_watch.Crates.{Crates, Host, domain, ipv4, ipv6}
use proxy_watch.Endpoint.{parse_host}
use proxy_watch.Pac.Policy.{PacPolicy}
use proxy_watch.Pac.Wildcard.{wildcard_match}
use proxy_watch.Prelude.{
  ℕ, zero, suc, ◌+◌, ◌-◌, ◌*◌, ◌/◌, ◌%◌, Bool, true, false, not, ◌&&◌, ◌||◌, Option, none, some,
  List, [], ◌∷◌, ◌++◌, ◌==◌, leb, ltb, if◌then◌else◌, length, all, is_nil, is_some, find, unwrap_or,
  or_option, and_then,
}
use proxy_watch.Prelude.Integer.{ℤ, pos, negsuc}
use proxy_watch.Prelude.Result.{ok, err}
use proxy_watch.Text.{
  Text, lit, lower, text_eq, has, is_digit, is_whitespace, trim_with, split, starts_with, ends_with,
}
use proxy_watch.Text.Address.{
  IpAddr, v4, v6, parse_ipv6, to_ipv4_mapped, is_loopback_ip, is_link_local_ip,
}
use proxy_watch.Text.Number.{parse_uint}
use proxy_watch.Util.Glob.{glob_match}
use proxy_watch.Util.HostPort.{strip_brackets, u16_mod}

unfoldable pub is_plain_host_name : Text → Bool
is_plain_host_name host = not (has b'.' host) && not (has b':' host)

unfoldable pub dns_domain_is : Text → Text → Bool
dns_domain_is host suffix = ends_with (lower suffix) (lower host)

unfoldable pub local_host_or_domain_is : Text → Text → Bool
local_host_or_domain_is host hostdom =
    let h = lower host in
    let d = lower hostdom in text_eq h d || (not (has b'.' h) && starts_with (h ++ lit ".") d)

unfoldable pub dns_domain_levels : Text → ℕ
dns_domain_levels [] = 0
dns_domain_levels (c ∷ cs) = (if c == b'.' then 1 else 0) + dns_domain_levels cs

unfoldable pub sh_exp_match : Text → Text → Bool
unfolding wildcard_match
sh_exp_match text pattern =
    if has b'?' pattern then wildcard_match pattern text else glob_match pattern text

abbrev is_dot : ℕ → Bool
is_dot c = c == b'.'

-- `u32::from_str`
abbrev parse_u32 : Text → Option ℕ
parse_u32 [] = none
parse_u32 (c ∷ cs) = if c == b'+' then parse_uint (2 ^ 32) cs else parse_uint (2 ^ 32) (c ∷ cs)

abbrev octet_of : Text → ℕ
octet_of part = unwrap_or (parse_u32 (trim_with is_whitespace part)) 0 % 256

-- The first `n` parts, each the next lower octet of 32 bits.
octets_from : ℕ → List Text → ℕ
octets_from zero parts = 0
octets_from (suc n) [] = 0
octets_from (suc n) (part ∷ parts) = octet_of part * 256 ^ n + octets_from n parts

-- The 32 bits before they are read as a signed number.
unfoldable pub convert_addr_bits : Text → ℕ
unfolding octets_from
convert_addr_bits addr = octets_from 4 (split is_dot addr)

-- `u32 as i32`
abbrev as_signed : ℕ → ℤ
as_signed n = if ltb n (2 ^ 31) then pos n else negsuc (2 ^ 32 - 1 - n)

unfoldable pub convert_addr : Text → ℤ
unfolding convert_addr_bits
convert_addr addr = as_signed (convert_addr_bits addr)

module _ ⦃crates : Crates⦄ where
  unfoldable pub literal_ipv4 : Text → Option ℕ
  literal_ipv4 host = elim (parse_host host) [
    | err _ ↦ none
    | ok h ↦ elim h [ ipv4 a ↦ some a | domain _ ↦ none | ipv6 _ ↦ none ]
  ]

unfoldable pub unbracket_ipv6 : Text → Text
unbracket_ipv6 host =
    let inner = strip_brackets host in if is_some (parse_ipv6 inner) then inner else host

abbrev octet : ℕ → ℕ → ℕ
octet n a = a / 256 ^ (3 - n) % 256

abbrev within : ℕ → ℕ → ℕ → Bool
within lo hi n = leb lo n && leb n hi

unfoldable pub is_internal4 : ℕ → Bool
is_internal4 a =
    let b = octet 0 a in
    let c = octet 1 a in
    let d = octet 2 a in
    is_loopback_ip (v4 a)
    || (b == 10 || (b == 172 && within 16 31 c) || (b == 192 && c == 168))
    || is_link_local_ip (v4 a)
    || within 224 239 b
    || b == 0
    || (b == 100 && within 64 127 c)
    || (b == 192 && c == 0 && d == 0)
    || (b == 192 && c == 0 && d == 2)
    || (b == 198 && c == 51 && d == 100)
    || (b == 203 && c == 0 && d == 113)
    || (b == 192 && c == 88 && d == 99)
    || (b == 198 && bit_and c 0xfe == 18)
    || leb 240 b

unfoldable pub is_internal6 : ℕ → Bool
is_internal6 a =
    let segment = a / 2 ^ 112 in
    is_loopback_ip (v6 a)
    || a == 0
    || segment / 256 == 0xff
    || bit_and segment 0xfe00 == 0xfc00
    || bit_and segment 0xffc0 == 0xfe80

unfoldable pub is_internal : IpAddr → Bool
unfolding is_internal4 is_internal6
is_internal (v4 a) = is_internal4 a
is_internal (v6 a) = elim (to_ipv4_mapped a) [ some b ↦ is_internal4 b | none ↦ is_internal6 a ]

-- The IPv4 addresses among the answers, an address mapped into IPv6 among them.
unfoldable pub v4_answers : List IpAddr → List ℕ
v4_answers [] = []
v4_answers (v4 a ∷ rest) = a ∷ v4_answers rest
v4_answers (v6 a ∷ rest) = elim (to_ipv4_mapped a) [
  | some b ↦ b ∷ v4_answers rest
  | none ↦ v4_answers rest
]

-- The resolver of the system, with the filter of the policy.
system_ipv4 : (Text → Option (List IpAddr)) → Text → PacPolicy → Option ℕ
unfolding v4_answers is_internal
system_ipv4 lookup host policy =
    if not policy.resolve_dns || is_nil host
    then none
    else and_then (lookup host) (λ answers.
      find (λ a. policy.allow_internal_addresses || not (is_internal (v4 a))) (v4_answers answers))

-- `ask_parent` is the answer of the parent process, if there is one; `lookup` is the resolver of the
-- system, with the addresses that it has for a name.
module _ (ask_parent : Text → Option (Option ℕ)) (lookup : Text → Option (List IpAddr)) where
  unfoldable pub resolve_ipv4 : Text → PacPolicy → Option ℕ
  unfolding system_ipv4
  resolve_ipv4 host policy = elim (ask_parent host) [
    | some answer ↦ answer
    | none ↦ system_ipv4 lookup host policy
  ]

  module _ ⦃crates : Crates⦄ where
    resolve_unless_literal : Text → PacPolicy → Option ℕ → Option ℕ
    unfolding resolve_ipv4
    resolve_unless_literal host policy (some literal) = some literal
    resolve_unless_literal host policy none =
        if is_some (parse_ipv6 host) then none else resolve_ipv4 host policy

    unfoldable pub dns_resolve : Text → PacPolicy → Option ℕ
    unfolding resolve_unless_literal unbracket_ipv6 literal_ipv4
    dns_resolve host policy =
        let name = unbracket_ipv6 (trim_with is_whitespace host) in
        resolve_unless_literal name policy (literal_ipv4 name)

    unfoldable pub is_resolvable : Text → PacPolicy → Bool
    unfolding unbracket_ipv6 literal_ipv4 resolve_ipv4
    is_resolvable host policy =
        let name = unbracket_ipv6 (trim_with is_whitespace host) in
        is_some (literal_ipv4 name)
        || is_some (parse_ipv6 name)
        || is_some (resolve_ipv4 name policy)

    -- Four decimal groups of at most three digits.
    reference_group : Text → Option ℕ
    reference_group group =
        if is_nil group || ltb 3 (length group) || not (all is_digit group)
        then none
        else parse_uint 256 group

    reference_groups : ℕ → List Text → Option ℕ
    unfolding reference_group
    reference_groups zero [] = some 0
    reference_groups zero (g ∷ gs) = none
    reference_groups (suc n) [] = none
    reference_groups (suc n) (g ∷ gs) =
        let rest = reference_groups n gs in
        and_then (reference_group g) (λ o. and_then rest (λ r. some (o * 256 ^ n + r)))

    unfoldable pub reference_ipv4 : Text → Option ℕ
    unfolding reference_groups
    reference_ipv4 text = reference_groups 4 (split is_dot text)

    unfoldable pub is_in_net : Text → Text → Text → PacPolicy → Bool
    unfolding reference_ipv4 dns_resolve
    is_in_net host pattern mask policy = elim (reference_ipv4 pattern) [
      | none ↦ false
      | some p ↦ elim (reference_ipv4 mask) [
        | none ↦ false
        | some m ↦ elim (or_option (reference_ipv4 host) (dns_resolve host policy)) [
          | none ↦ false
          | some a ↦ bit_and a m == bit_and p m
        ]
      ]
    ]

-- A process that is no worker has no parent to ask.
abbrev pub no_parent : Text → Option (Option ℕ)
no_parent host = none

-- What a worker is told by its parent, which answers each name (`converse`) under the policy that it
-- evaluates under, and `none` anywhere else. The frames between the two, and the text of the address
-- in them, are left out, and so is a parent that fails: it ends the worker.
unfoldable pub ask_parent :
    (Text → Option (List IpAddr)) → Option PacPolicy → Text → Option (Option ℕ)
unfolding resolve_ipv4
ask_parent lookup none host = none
ask_parent lookup (some policy) host = some (resolve_ipv4 no_parent lookup host policy)
