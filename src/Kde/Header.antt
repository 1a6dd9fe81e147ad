-- ===== src/Kde/Header.antt =====
-- src/sys/linux/kde.rs: a line `[Group][$i]`.
use proxy_watch.Kde.Escape.{printable_to_string}
use proxy_watch.Kde.Settings.{trim_ascii}
use proxy_watch.Prelude.{
  Bool, true, false, ◌&&◌, Option, none, some, [], ◌∷◌, ◌++◌, ◌==◌, if◌then◌else◌, is_nil,
}
use proxy_watch.Text.{Text, lit, has, text_eq}

pub record GroupHeader : Type 0 where
  pub name : Text
  pub file_immutable : Bool
  pub group_immutable : Bool

abbrev no_header : GroupHeader
no_header = record { name = []; file_immutable = false; group_immutable = false }

abbrev part_name : Text → Text
part_name part = if has b'\\' part then printable_to_string (trim_ascii part) else part

-- A part that is a name, joined to those before it.
named : Text → GroupHeader → GroupHeader
named part h =
    let joined = if is_nil h.name then h.name else h.name ++ 0x1d ∷ [] in
    record h { name = joined ++ part_name part }

-- A part; the last one may be the marker.
part : Bool → Text → GroupHeader → GroupHeader
unfolding named
part last t h =
    if last && text_eq t (lit "$i")
    then if is_nil h.name
      then record h { file_immutable = true }
      else record h { group_immutable = true }
    else named t h

-- Behind an opening bracket, with what was read since.
header_from : Text → GroupHeader → Text → Option GroupHeader
unfolding part
header_from t h [] = none
header_from t h (c ∷ []) = if c == b']' then some (part true t h) else none
header_from t h (c ∷ d ∷ more) =
    let inside = header_from (t ++ c ∷ []) h (d ∷ more) in
    let next = header_from [] (part false t h) more in
    if c == b']' then if d == b'[' then next else some (part false t h) else inside

-- `group_header`, on a line that begins with a bracket.
unfoldable pub group_header : Text → Option GroupHeader
unfolding header_from
group_header [] = none
group_header (c ∷ line) = header_from [] no_header line
