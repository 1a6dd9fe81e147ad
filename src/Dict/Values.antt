-- ===== src/Dict/Values.antt =====
-- src/sys/proxy_dict.rs: the dictionary, with its tolerant readers.
pub mod Flags
use Prim.Native.Nat.{◌^◌}
use proxy_watch.Prelude.{
  ℕ, suc, Bool, true, false, not, ◌&&◌, ◌||◌, Option, none, some, List, [], ◌∷◌, ◌++◌, ◌==◌, ltb,
  if◌then◌else◌, is_nil, is_some, length, map_option, and_then, any,
}
use proxy_watch.Prelude.Integer.{ℤ, pos, negsuc, is_zero, try_unsigned, negate64}
use proxy_watch.Text.{Text, lit, is_whitespace, trim_with, text_eq}
use proxy_watch.Text.Number.{show, parse_i64}
use proxy_watch.Util.HostPort.{port_from_digits, u16_mod}

pub data DictValue : Type 0 where
  number : ℤ → DictValue
  text_value : Text → DictValue
  -- the strings, and how many items were none
  list_value : List Text → ℕ → DictValue
  unreadable : DictValue

pub record ProxyDict : Type 0 where
  pub entries : Text → Option DictValue

abbrev pub new : ProxyDict
new = record { entries = λ k. none }

unfoldable pub insert : Text → DictValue → ProxyDict → ProxyDict
insert key value d = record { entries = λ k. if text_eq key k then some value else d.entries k }

abbrev pub unreadable_text : Text
unreadable_text = lit "<unreadable value>"

abbrev pub trimmed : Text → Text
trimmed = trim_with is_whitespace

abbrev pub filled : Text → Option Text
filled t = if is_nil t then none else some t

abbrev count_text : List Text → Text
count_text items = lit "<" ++ show (length items) ++ lit " strings>"

unfoldable pub show_number : ℤ → Text
show_number (pos n) = show n
show_number (negsuc n) = b'-' ∷ show (suc n)

flag_of : DictValue → Option Bool
unfolding parse_i64
flag_of (number value) = some (not (is_zero value))
flag_of (text_value t) = map_option (λ n. not (is_zero n)) (parse_i64 (trimmed t))
flag_of (list_value items n) = none
flag_of unreadable = none

unfoldable pub flag : ProxyDict → Text → Option Bool
unfolding flag_of
flag d key = and_then (d.entries key) flag_of

unusable_flag : DictValue → Option Text
unfolding flag_of
unusable_flag (number value) = none
unusable_flag (text_value t) = if is_some (flag_of (text_value t)) then none else some (trimmed t)
unusable_flag (list_value items n) = some (count_text items)
unusable_flag unreadable = some unreadable_text

unfoldable pub flag_is_unusable : ProxyDict → Text → Option Text
unfolding unusable_flag
flag_is_unusable d key = and_then (d.entries key) unusable_flag

text_of : DictValue → Option Text
text_of (text_value t) = filled (trimmed t)
text_of _ = none

unfoldable pub text : ProxyDict → Text → Option Text
unfolding text_of
text d key = and_then (d.entries key) text_of

raw_of : DictValue → Option Text
raw_of (text_value t) = if is_nil (trimmed t) then none else some t
raw_of _ = none

unfoldable pub raw_text : ProxyDict → Text → Option Text
unfolding raw_of
raw_text d key = and_then (d.entries key) raw_of

unusable_text : DictValue → Option Text
unfolding show_number
unusable_text (text_value t) = none
unusable_text (number value) = some (show_number value)
unusable_text (list_value items n) = some (count_text items)
unusable_text unreadable = some unreadable_text

unfoldable pub text_is_unusable : ProxyDict → Text → Option Text
unfolding unusable_text
text_is_unusable d key = and_then (d.entries key) unusable_text

-- A port of zero is no port.
abbrev nonzero : ℕ → Option ℕ
nonzero n = if n == 0 then none else some n

port_of : DictValue → Option ℕ
port_of (number value) = and_then (try_unsigned u16_mod value) nonzero
port_of (text_value t) = and_then (port_from_digits (trimmed t)) nonzero
port_of (list_value items n) = none
port_of unreadable = none

unfoldable pub port : ProxyDict → Text → Option ℕ
unfolding port_of
port d key = and_then (d.entries key) port_of

unusable_port : DictValue → Option Text
unfolding show_number
unusable_port (number value) = if is_zero value then none else some (show_number value)
unusable_port (text_value t) =
    let u = trimmed t in if is_nil u || text_eq u (lit "0") then none else some u
unusable_port (list_value items n) = some (count_text items)
unusable_port unreadable = some unreadable_text

unfoldable pub port_is_unusable : ProxyDict → Text → Option Text
unfolding port unusable_port
port_is_unusable d key =
    if is_some (port d key) then none else and_then (d.entries key) unusable_port

list_of : DictValue → Option (List Text × ℕ)
list_of (list_value items n) = some (items, n)
list_of _ = none

unfoldable pub list : ProxyDict → Text → Option (List Text × ℕ)
unfolding list_of
list d key = and_then (d.entries key) list_of

unusable_list : DictValue → Option Text
unfolding show_number
unusable_list (list_value items n) = none
unusable_list (text_value t) = filled (trimmed t)
unusable_list (number value) = some (show_number value)
unusable_list unreadable = some unreadable_text

unfoldable pub list_is_unusable : ProxyDict → Text → Option Text
unfolding unusable_list
list_is_unusable d key = and_then (d.entries key) unusable_list
