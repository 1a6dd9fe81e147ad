-- ===== src/Kde/File.antt =====
-- src/sys/linux/kde.rs: one file, applied to the settings of the files before it. The validator of
-- the crate configparser is the argument `ini_error`, which answers the reason of a refusal.
pub mod Locks
use proxy_watch.Error.{Error, io}
use proxy_watch.Kde.Escape.{printable_to_string}
use proxy_watch.Kde.Header.{GroupHeader, group_header}
use proxy_watch.Kde.Settings.{
  KioslavercSettings, section, trim_ascii, apply, has_kconfig_flag, mark_group_immutable,
}
use proxy_watch.Prelude.{
  ℕ, Bool, true, false, not, ◌&&◌, ◌||◌, Option, none, some, List, [], ◌∷◌, ◌++◌, ◌==◌,
  if◌then◌else◌, is_nil, is_some, map,
}
use proxy_watch.Prelude.Result.{Result, ok, err}
use proxy_watch.Text.{Text, lines, lit, split, split_once, starts_with, text_eq, without_suffix}

pub record ApplyOutcome : Type 0 where
  pub found_proxy_settings : Bool
  pub file_immutable : Bool

-- The variables of the loop over the lines; `locked` is `current_group_immutable`.
pub record Scan : Type 0 where
  pub settings : KioslavercSettings
  pub in_proxy_settings : Bool
  pub locked : Bool
  pub pending : Bool
  pub file_immutable : Bool
  pub found : Bool

abbrev pub start : KioslavercSettings → Scan
start s = record {
  settings = s;
  in_proxy_settings = false;
  locked = false;
  pending = false;
  file_immutable = false;
  found = false;
}

-- A line that begins with a bracket. One that is no header leaves the group as it is.
enter : Option GroupHeader → Scan → Scan
enter none sc = record sc { locked = sc.in_proxy_settings && sc.file_immutable }
enter (some h) sc =
    let file = sc.file_immutable || h.file_immutable in
    let inside = text_eq h.name section in
    let locked = inside && (file || h.group_immutable) in
    record sc {
      file_immutable = file;
      in_proxy_settings = inside;
      locked = locked;
      pending = sc.pending || locked;
      found = sc.found || inside;
    }

row_of : Text → Text × Option Text
row_of t = elim (split_once b'=' t) [
  | some (key, value) ↦ (key, some (printable_to_string (trim_ascii value)))
  | none ↦ (t, none)
]

-- A row with no value counts only as a deletion.
set_row : Text × Option Text → Scan → Scan
set_row (raw_key, value) sc =
    if is_some value || has_kconfig_flag raw_key b'd'
    then record sc { settings = apply raw_key value sc.locked sc.settings }
    else sc

step_line : Bool → Text → Scan → Scan
unfolding enter row_of set_row
step_line group_was_immutable t sc =
    if is_nil t || starts_with (lit "#") t
    then sc
    else if starts_with (lit "[") t
    then enter (group_header t) sc
    else if not sc.in_proxy_settings || group_was_immutable
    then sc
    else set_row (row_of t) sc

scan : Bool → List Text → Scan → Scan
unfolding step_line
scan group_was_immutable [] sc = sc
scan group_was_immutable (line ∷ rest) sc =
    scan group_was_immutable rest (step_line group_was_immutable (trim_ascii line) sc)

finish : Scan → ApplyOutcome × KioslavercSettings
finish sc = (
  record { found_proxy_settings = sc.found; file_immutable = sc.file_immutable },
  if sc.pending then mark_group_immutable sc.settings else sc.settings,
)

module _ (ini_error : Text → Option Text) where
  unfoldable pub apply_proxy_settings :
      Text → Text → KioslavercSettings → Result Error (ApplyOutcome × KioslavercSettings)
  unfolding scan finish
  apply_proxy_settings t path s = elim (ini_error t) [
    | some reason ↦ err (io (lit "parsing " ++ path) reason)
    | none ↦ ok (finish (scan s.group_immutable (lines t) (start s)))
  ]
