-- ===== src/Text/Address/Read.antt =====
-- Addresses and their parsers, `Ipv4Addr::from_str`, `Ipv6Addr::from_str`, `IpAddr::from_str`.
use Prim.Native.Nat.{ℕ, zero, suc, ◌+◌, ◌-◌, ◌*◌, ◌/◌, ◌%◌}
use mathlib.Core.Bool.{Bool, true, false, ◌||◌}
use mathlib.Core.List.{List, [], ◌∷◌, ◌++◌}
use mathlib.Core.Option.{Option, none, some}
use proxy_watch.Prelude.{ltb, ◌==◌, if◌then◌else◌, length, and_then, map_option}
use proxy_watch.Text.Chars.{Text, is_digit, between}

-- An IPv4 address is a number below 2 ^ 32, an IPv6 address one below 2 ^ 128.
pub data IpAddr : Type 0 where
  v4 : ℕ → IpAddr
  v6 : ℕ → IpAddr

-- The longest prefix of a class, and the rest.
unfoldable pub span : (ℕ → Bool) → Text → Text × Text
span p [] = ([], [])
span p (c ∷ cs) = elim (p c) [ true ↦ (c ∷ (span p cs).0, (span p cs).1) | false ↦ ([], c ∷ cs) ]

-- `char::to_digit(16)`
abbrev pub hex_digit : ℕ → Option ℕ
hex_digit c =
    if is_digit c
    then some (c - 48)
    else if between b'a' b'f' c
    then some (c - 87)
    else if between b'A' b'F' c
    then some (c - 55)
    else none

abbrev is_hex : ℕ → Bool
is_hex c = is_digit c || between b'a' b'f' c || between b'A' b'F' c

unfoldable pub decimal : ℕ → Text → ℕ
decimal n [] = n
decimal n (c ∷ cs) = decimal (n * 10 + (c - 48)) cs

unfoldable pub hexadecimal : ℕ → Text → ℕ
hexadecimal n [] = n
hexadecimal n (c ∷ cs) = hexadecimal (n * 16 + elim (hex_digit c) [ some d ↦ d | none ↦ 0 ]) cs

abbrev leading_zero : Text → Bool
leading_zero (c ∷ d ∷ t) = c == 48
leading_zero _ = false

-- `read_number(10, Some(3), false)` at `u8`
unfoldable pub read_octet : Text → Option (ℕ × Text)
unfolding span decimal
read_octet t =
    let ds = (span is_digit t).0 in
    let n = decimal 0 ds in
    if length ds == 0 || ltb 3 (length ds) || leading_zero ds || ltb 255 n
    then none
    else some (n, (span is_digit t).1)

-- `read_number(16, Some(4), true)` at `u16`
unfoldable pub read_group : Text → Option (ℕ × Text)
unfolding span hexadecimal
read_group t =
    let ds = (span is_hex t).0 in
    if length ds == 0 || ltb 4 (length ds) then none else some (hexadecimal 0 ds, (span is_hex t).1)

abbrev read_char : ℕ → Text → Option Text
read_char c [] = none
read_char c (x ∷ t) = if x == c then some t else none

unfoldable pub read_ipv4 : Text → Option (ℕ × Text)
unfolding read_octet
read_ipv4 t = and_then (read_octet t) λ a. and_then (and_then (read_char b'.' a.1) read_octet) λ b.
    and_then (and_then (read_char b'.' b.1) read_octet) λ c.
      and_then (and_then (read_char b'.' c.1) read_octet)
        λ d. some (((a.0 * 256 + b.0) * 256 + c.0) * 256 + d.0, d.1)

-- `read_separator`: a colon first, but before the first group.
abbrev separated {ℓ} : {A : Type ℓ} → Bool → (Text → Option A) → Text → Option A
separated true read t = read t
separated false read t = and_then (read_char b':' t) read

-- `read_groups` with the number of slots that are left: the groups, whether they end in an
-- embedded IPv4 address, and the unread text.
unfoldable pub read_groups : ℕ → Bool → Text → List ℕ × Bool × Text
unfolding read_group read_ipv4
read_groups zero first t = ([], false, t)
read_groups (suc n) first t = elim (if n == 0 then none else separated first read_ipv4 t) [
  | some r ↦ (r.0 / 65536 ∷ r.0 % 65536 ∷ [], true, r.1)
  | none ↦ elim (separated first read_group t) [
    | none ↦ ([], false, t)
    | some r ↦ let more = read_groups n false r.1 in (r.0 ∷ more.0, more.1, more.2)
  ]
]

abbrev zeros : ℕ → List ℕ
zeros zero = []
zeros (suc n) = 0 ∷ zeros n

unfoldable pub from_groups : ℕ → List ℕ → ℕ
from_groups acc [] = acc
from_groups acc (g ∷ gs) = from_groups (acc * 65536 + g) gs

unfoldable pub read_ipv6 : Text → Option (ℕ × Text)
unfolding read_groups from_groups
read_ipv6 t =
    let head = read_groups 8 true t in
    let n = length head.0 in
    if n == 8
    then some (from_groups 0 head.0, head.2)
    else if head.1
    then none
    else and_then (and_then (read_char b':' head.2) (read_char b':')) λ r.
      let tail = read_groups (8 - (n + 1)) true r in
      some (from_groups 0 (head.0 ++ zeros (8 - n - length tail.0) ++ tail.0), tail.2)

-- The whole text has to be read.
abbrev all_read {ℓ} : {A : Type ℓ} → Option (A × Text) → Option A
all_read none = none
all_read (some (a, [])) = some a
all_read (some (a, c ∷ cs)) = none

unfoldable pub parse_ipv4 : Text → Option ℕ
unfolding read_ipv4
parse_ipv4 t = all_read (read_ipv4 t)

unfoldable pub parse_ipv6 : Text → Option ℕ
unfolding read_ipv6
parse_ipv6 t = all_read (read_ipv6 t)

unfoldable pub parse_ip : Text → Option IpAddr
unfolding read_ipv4 read_ipv6
parse_ip t = all_read (elim (read_ipv4 t) [
  | some r ↦ some (v4 r.0, r.1)
  | none ↦ map_option (λ r. (v6 r.0, r.1)) (read_ipv6 t)
])
