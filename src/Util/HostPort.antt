-- ===== src/Util/HostPort.antt =====
-- src/util.rs: `split_host_port`, the port parser behind it, and `strip_brackets`.
pub mod Bounds
use Prim.Native.Nat.{◌^◌}
use proxy_watch.Prelude.{
  ℕ, true, false, not, ◌||◌, Option, none, some, [], ◌∷◌, ◌++◌, ◌==◌, if◌then◌else◌, length, all,
  is_nil, and_then, unwrap_or, map_option,
}
use proxy_watch.Prelude.Result.{Result, ok, err, ◌>>=◌, ok_or}
use proxy_watch.Reason.{Reason, unbalanced_bracket, text_after_bracket, invalid_port}
use proxy_watch.Text.{
  Text, lit, is_digit, has, split_once, rsplit_once, strip_prefix, strip_suffix, starts_with,
}
use proxy_watch.Text.Number.{parse_uint}

-- `u16::MAX + 1`
abbrev pub u16_mod : ℕ
u16_mod = 65536

-- The tests before the call of `u16::from_str` leave it digits alone.
unfoldable pub port_from_digits : Text → Option ℕ
port_from_digits t = if is_nil t || not (all is_digit t) then none else parse_uint u16_mod t

abbrev count_digits : Text → ℕ
count_digits [] = 0
count_digits (c ∷ cs) = elim (is_digit c) [
  | true ↦ Prim.Native.Nat.suc (count_digits cs)
  | false ↦ count_digits cs
]

-- The two numbers that the message is made of.
invalid_port_reason : Text → Reason
invalid_port_reason t = invalid_port (length t) (count_digits t)

unfoldable pub parse_port : Text → Result Reason (Option ℕ)
unfolding port_from_digits invalid_port_reason
parse_port t =
    if is_nil t
    then ok none
    else ok_or (invalid_port_reason t) (map_option some (port_from_digits t))

-- `host[:port]`, with the brackets of an IPv6 literal left on the host. The argument is what
-- `input.find(']')` splits the text into.
bracketed_host_port : Option (Text × Text) → Result Reason (Text × Option ℕ)
unfolding parse_port
bracketed_host_port none = err unbalanced_bracket
bracketed_host_port (some (before, [])) = ok (before ++ b']' ∷ [], none)
bracketed_host_port (some (before, c ∷ rest)) =
    if c == b':'
    then (do p ← parse_port rest; ok (before ++ b']' ∷ [], p))
    else err text_after_bracket

-- The argument is what `input.rfind(':')` splits the text into: a text with two colons, as a bare
-- IPv6 address, has no port.
plain_host_port : Text → Option (Text × Text) → Result Reason (Text × Option ℕ)
unfolding parse_port
plain_host_port input none = ok (input, none)
plain_host_port input (some (host, port)) =
    if has b':' host then ok (input, none) else (do p ← parse_port port; ok (host, p))

unfoldable pub split_host_port : Text → Result Reason (Text × Option ℕ)
unfolding bracketed_host_port plain_host_port
split_host_port input =
    if starts_with (lit "[") input
    then bracketed_host_port (split_once b']' input)
    else plain_host_port input (rsplit_once b':' input)

unfoldable pub strip_brackets : Text → Text
strip_brackets host =
    unwrap_or (and_then (strip_prefix (lit "[") host) (λ rest. strip_suffix (lit "]") rest)) host
