-- ===== src/Text/Address/Write.antt =====
-- `Display` of the addresses, and the tests on them.
use Prim.Native.Nat.{ℕ, zero, suc, ◌+◌, ◌/◌, ◌%◌, ◌^◌}
use mathlib.Core.Bool.{Bool, false, ◌&&◌}
use mathlib.Core.List.{List, [], ◌∷◌, ◌++◌}
use mathlib.Core.Option.{Option, none, some}
use proxy_watch.Prelude.{ltb, ◌==◌, if◌then◌else◌}
use proxy_watch.Text.Chars.{Text, lit}
use proxy_watch.Text.Number.{show}
use proxy_watch.Text.Address.Read.{IpAddr, v4, v6}

unfoldable pub show_ipv4 : ℕ → Text
unfolding show
show_ipv4 a =
    show (a / 2 ^ 24 % 256)
    ++ (b'.' ∷ show (a / 2 ^ 16 % 256))
    ++ (b'.' ∷ show (a / 2 ^ 8 % 256))
    ++ (b'.' ∷ show (a % 256))

-- The eight groups of an IPv6 address, most significant first.
abbrev groups : ℕ → List ℕ
groups a =
    a / 2 ^ 112 % 65536
    ∷ a / 2 ^ 96 % 65536
    ∷ a / 2 ^ 80 % 65536
    ∷ a / 2 ^ 64 % 65536
    ∷ a / 2 ^ 48 % 65536
    ∷ a / 2 ^ 32 % 65536
    ∷ a / 2 ^ 16 % 65536
    ∷ a % 65536
    ∷ []

hex_char : ℕ → ℕ
hex_char d = if ltb d 10 then 48 + d else 87 + d

-- A group in lower-case hexadecimal, with no leading zero.
show_group : ℕ → Text
unfolding hex_char
show_group g =
    let d0 = hex_char (g % 16) ∷ [] in
    let d1 = hex_char (g / 16 % 16) ∷ d0 in
    let d2 = hex_char (g / 256 % 16) ∷ d1 in
    if ltb g 16
    then d0
    else if ltb g 256
    then d1
    else if ltb g 4096
    then d2
    else hex_char (g / 4096) ∷ d2

-- Where the longest run of zero groups starts, and its length: the first of equal ones.
longest_run : ℕ → ℕ → ℕ → ℕ → ℕ → List ℕ → ℕ × ℕ
longest_run i start len best best_len [] = (best, best_len)
longest_run i start len best best_len (g ∷ gs) =
    let start' = if len == 0 then i else start in
    let longer = ltb best_len (len + 1) in
    longest_run (i + 1) (if g == 0 then start' else 0) (if g == 0 then len + 1 else 0)
      (if g == 0 && longer then start' else best) (if g == 0 && longer then len + 1 else best_len)
      gs

join_groups : List ℕ → Text
unfolding show_group
join_groups [] = []
join_groups (g ∷ []) = show_group g
join_groups (g ∷ h ∷ gs) = show_group g ++ (b':' ∷ join_groups (h ∷ gs))

take_groups : ℕ → List ℕ → List ℕ
take_groups zero gs = []
take_groups (suc n) [] = []
take_groups (suc n) (g ∷ gs) = g ∷ take_groups n gs

drop_groups : ℕ → List ℕ → List ℕ
drop_groups zero gs = gs
drop_groups (suc n) [] = []
drop_groups (suc n) (g ∷ gs) = drop_groups n gs

-- `Ipv6Addr::to_ipv4_mapped`: `::ffff:a.b.c.d`.
unfoldable pub to_ipv4_mapped : ℕ → Option ℕ
to_ipv4_mapped a = if a / 2 ^ 32 == 0xffff then some (a % 2 ^ 32) else none

unfoldable pub show_ipv6 : ℕ → Text
unfolding longest_run join_groups take_groups drop_groups to_ipv4_mapped show_ipv4
show_ipv6 a = elim (to_ipv4_mapped a) [
  | some b ↦ lit "::ffff:" ++ show_ipv4 b
  | none ↦
      let gs = groups a in
      let run = longest_run 0 0 0 0 0 gs in
      if ltb 1 run.1
      then join_groups (take_groups run.0 gs)
        ++ lit "::"
        ++ join_groups (drop_groups (run.0 + run.1) gs)
      else join_groups gs
]

-- `IpAddr::is_loopback`: `127.0.0.0/8` and `::1`.
unfoldable pub is_loopback_ip : IpAddr → Bool
is_loopback_ip (v4 a) = a / 2 ^ 24 == 127
is_loopback_ip (v6 a) = a == 1

-- `Ipv4Addr::is_link_local` and `Ipv6Addr::is_unicast_link_local`: `169.254.0.0/16`, `fe80::/10`.
unfoldable pub is_link_local_ip : IpAddr → Bool
is_link_local_ip (v4 a) = a / 2 ^ 16 == 0xa9fe
is_link_local_ip (v6 a) = a / 2 ^ 118 == 0x3fa

unfoldable pub ip_eq : IpAddr → IpAddr → Bool
ip_eq (v4 a) (v4 b) = a == b
ip_eq (v6 a) (v6 b) = a == b
ip_eq _ _ = false
