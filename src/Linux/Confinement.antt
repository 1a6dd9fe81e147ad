-- ===== src/Linux/Confinement.antt =====
-- src/sys/linux/sandbox.rs: whether the program runs in a sandbox. Reading a file is an argument.
use proxy_watch.Files.{FileRead, contents, not_found, failed, join}
use proxy_watch.Prelude.{
  ℕ, Bool, true, false, not, ◌&&◌, ◌||◌, Option, none, some, List, [], ◌∷◌, ltb, ◌==◌,
  if◌then◌else◌, all, any, is_nil, map_option,
}
use proxy_watch.Text.{
  Text, lit, lines, is_ascii_whitespace, trim_start, trim_end, trim_with, text_eq, strip_prefix,
  split_once, starts_with,
}

abbrev flatpak_info : Text
flatpak_info = lit "/.flatpak-info"

pub data Sandbox : Type 0 where
  unsandboxed : Sandbox
  -- whether the settings of the host can be read
  flatpak : Bool → Sandbox
  snap : Sandbox

abbrev pub gsettings_is_trustworthy : Sandbox → Bool
gsettings_is_trustworthy unsandboxed = true
gsettings_is_trustworthy (flatpak dconf_access) = dconf_access
gsettings_is_trustworthy snap = false

abbrev pub sandbox_name : Sandbox → Text
sandbox_name unsandboxed = lit "unsandboxed"
sandbox_name (flatpak dconf_access) = lit "Flatpak"
sandbox_name snap = lit "Snap"

first_confinement : List Text → Option Text
first_confinement [] = none
first_confinement (line ∷ rest) = elim (strip_prefix (lit "confinement:") line) [
  | some value ↦ some value
  | none ↦ first_confinement rest
]

unfoldable pub snap_confinement : Text → Option Text
unfolding first_confinement
snap_confinement yaml = map_option (trim_with is_ascii_whitespace) (first_confinement (lines yaml))

unfoldable pub snap_is_confined : Text → Bool
unfolding snap_confinement
snap_is_confined yaml = elim (snap_confinement yaml) [
  | none ↦ true
  | some value ↦ not (text_eq value (lit "classic"))
]

-- `u8::is_ascii_control`
abbrev is_ascii_control : ℕ → Bool
is_ascii_control c = ltb c 32 || c == 127

-- The name of a group, from the text behind its bracket.
unfoldable pub group_name : Text → Option Text
group_name after = elim (split_once b']' after) [
  | none ↦ none
  | some (name, rest) ↦
      if all (λ c. c == b' ' || c == b'\t') rest
        && not (is_nil name)
        && not (any (λ c. c == b'[' || is_ascii_control c) name)
      then some name
      else none
]

-- The variables of the loop of `has_dconf_access`.
pub record Access : Type 0 where
  pub in_section : Bool
  pub in_group : Bool
  pub granted : Bool

read_key : Text × Text → Access → Option Access
read_key (before, value) a =
    let key = trim_end is_ascii_whitespace before in
    if not a.in_group || is_nil key || any (λ c. c == b'[' || c == b']') key
    then none
    else if a.in_section && text_eq key (lit "ca.desrt.dconf")
    then some (record a { granted = text_eq (trim_start is_ascii_whitespace value) (lit "talk") })
    else some a

-- One line behind its white space; `none` where the file is refused.
read_line : Text → Access → Option Access
unfolding read_key
read_line line a =
    if is_nil line || starts_with (lit "#") line
    then some a
    else elim (strip_prefix (lit "[") line) [
      | some rest ↦
          map_option
            (λ name. record a {
              in_section = text_eq name (lit "Session Bus Policy");
              in_group = true;
            })
            (group_name rest)
      | none ↦ elim (split_once b'=' line) [ none ↦ none | some row ↦ read_key row a ]
    ]

read_lines : List Text → Access → Bool
unfolding read_line
read_lines [] a = a.granted
read_lines (line ∷ rest) a = elim (read_line (trim_start is_ascii_whitespace line) a) [
  | none ↦ false
  | some b ↦ read_lines rest b
]

unfoldable pub has_dconf_access : Text → Bool
unfolding read_lines
has_dconf_access info =
    read_lines (lines info) (record { in_section = false; in_group = false; granted = false })

unfoldable pub sandbox_from_flatpak_read : FileRead → Bool → Sandbox
unfolding has_dconf_access
sandbox_from_flatpak_read (contents t) is_snap = flatpak (has_dconf_access t)
sandbox_from_flatpak_read (failed e) is_snap = flatpak false
sandbox_from_flatpak_read not_found is_snap = if is_snap then snap else unsandboxed

module _ (env : Text → Option Text) (read_file : Text → FileRead) where
  confined_by : FileRead → Bool
  confined_by (contents yaml) = snap_is_confined yaml
  confined_by not_found = false
  confined_by (failed e) = false

  unfoldable pub is_snap : Bool
  unfolding confined_by
  is_snap = elim (env (lit "SNAP")) [
    | none ↦ false
    | some dir ↦ confined_by (read_file (join dir (lit "meta/snap.yaml")))
  ]

  unfoldable pub detect : Sandbox
  unfolding is_snap sandbox_from_flatpak_read
  detect = sandbox_from_flatpak_read (read_file flatpak_info) is_snap
