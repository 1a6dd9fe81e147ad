-- ===== src/Text/Number.antt =====
-- Numbers in texts: decimal digits, and the machine-width parsers of `core::num`.
use Prim.Native.Nat.{ℕ, zero, suc, ◌+◌, ◌-◌, ◌*◌, ◌/◌, ◌%◌, ◌^◌}
use mathlib.Core.Bool.{Bool, ◌&&◌, not}
use mathlib.Core.List.{[], ◌∷◌}
use mathlib.Core.Option.{Option, none, some}
use proxy_watch.Prelude.{ltb, ◌==◌, if◌then◌else◌, all, is_nil, and_then}
use proxy_watch.Prelude.Integer.{ℤ, pos, negate64}
use proxy_watch.Text.Chars.{Text, is_digit}

abbrev pub digit_value : ℕ → ℕ
digit_value c = c - 48

unfoldable pub decimal_from : ℕ → Text → ℕ
decimal_from n [] = n
decimal_from n (c ∷ cs) = decimal_from (n * 10 + digit_value c) cs

abbrev pub all_digits : Text → Bool
all_digits t = not (is_nil t) && all is_digit t

-- `u8::from_str` and `u16::from_str` on a text already known to be decimal digits: an overflow
-- of the width is an error. (The sign that these parsers accept never reaches them here.)
unfoldable pub parse_uint : ℕ → Text → Option ℕ
unfolding decimal_from
parse_uint bound t =
    let n = decimal_from 0 t in if all_digits t && ltb n bound then some n else none

-- `u8::to_string` and the like. The fuel bounds the number of digits.
unfoldable pub show_fuel : ℕ → ℕ → Text → Text
show_fuel zero n acc = acc
show_fuel (suc f) n acc =
    let rest = show_fuel f (n / 10) ((48 + n % 10) ∷ acc) in
    if ltb n 10 then (48 + n) ∷ acc else rest

unfoldable pub show : ℕ → Text
unfolding show_fuel
show n = show_fuel (suc n) n []

-- `i64::from_str`
abbrev digits64 : Text → Option ℕ
digits64 t = if all_digits t then some (decimal_from 0 t) else none

abbrev within64 : ℕ → Option ℤ
within64 n = if ltb n (2 ^ 63) then some (pos n) else none

unfoldable pub parse_i64 : Text → Option ℤ
parse_i64 [] = none
parse_i64 (c ∷ cs) =
    if c == b'-'
    then and_then (digits64 cs) negate64
    else if c == b'+'
    then and_then (digits64 cs) within64
    else and_then (digits64 (c ∷ cs)) within64
