-- ===== src/Kde/Cascade.antt =====
-- src/sys/linux/kde.rs: the directories that may hold a `kioslaverc`, and the cascade of the files.
-- A path is a text, and reading a file is an argument.
pub mod Locks
use proxy_watch.Error.{Error, io}
use proxy_watch.Files.{FileRead, contents, not_found, failed, is_absolute, join}
use proxy_watch.Kde.File.{ApplyOutcome, apply_proxy_settings}
use proxy_watch.Kde.Settings
use proxy_watch.Kde.Settings.{KioslavercSettings, file_name}
use proxy_watch.Prelude.{
  ℕ, Bool, true, false, not, ◌&&◌, ◌||◌, Option, none, some, List, [], ◌∷◌, ◌++◌, ◌==◌,
  if◌then◌else◌, any, is_nil, and_then, map_option, reverse, unwrap_or,
}
use proxy_watch.Prelude.Result.{Result, ok, err, ◌>>=◌}
use proxy_watch.Text.{Text, lit, split, non_empty, starts_with, ends_with, text_eq}

abbrev is_slash : ℕ → Bool
is_slash c = c == b'/'

-- `Path::components` behind the root: no empty piece, and no `.`.
components : List Text → List Text
components [] = []
components (p ∷ ps) = if is_nil p || text_eq p (lit ".") then components ps else p ∷ components ps

texts_eq : List Text → List Text → Bool
texts_eq [] [] = true
texts_eq (a ∷ as') (b ∷ bs) = text_eq a b && texts_eq as' bs
texts_eq _ _ = false

-- The equality of two absolute paths.
same_path : Text → Text → Bool
unfolding components texts_eq
same_path a b = texts_eq (components (split is_slash a)) (components (split is_slash b))

abbrev filled : Option Text → Option Text
filled value = and_then value (λ v. if is_nil v then none else some v)

absolute : Option Text → Option Text
absolute path = and_then path (λ p. if is_absolute p then some p else none)

user_dir : Option Text → Option Text → Option Text
unfolding absolute
user_dir config_home home = elim (absolute (filled config_home)) [
  | some dir ↦ some dir
  | none ↦ absolute (map_option (λ h. join h (lit ".config")) (filled home))
]

abbrev default_config_dirs : Text
default_config_dirs = lit "/etc/xdg"

only_absolute : List Text → List Text
only_absolute [] = []
only_absolute (p ∷ ps) = if is_absolute p then p ∷ only_absolute ps else only_absolute ps

system_dirs : Option Text → List Text
unfolding only_absolute
system_dirs config_dirs =
    let dirs =
      only_absolute
        (non_empty (split (λ c. c == b':') (unwrap_or (filled config_dirs) default_config_dirs))) in
    if is_nil dirs then default_config_dirs ∷ [] else dirs

-- The loop that adds the directories that are not there yet.
add_dirs : List Text → List Text → List Text
unfolding same_path
add_dirs dirs [] = dirs
add_dirs dirs (c ∷ cs) =
    add_dirs (if any (λ d. same_path d c) dirs then dirs else dirs ++ c ∷ []) cs

unfoldable pub search_dirs : Option Text → Option Text → Option Text → List Text
unfolding user_dir system_dirs add_dirs
search_dirs config_home home config_dirs =
    add_dirs (elim (user_dir config_home home) [ none ↦ [] | some dir ↦ dir ∷ [] ])
      (system_dirs config_dirs)

pub record KioslavercRead : Type 0 where
  pub settings : KioslavercSettings
  pub paths : List Text
  pub found_proxy_settings : Bool

abbrev pub nothing_read : KioslavercRead
nothing_read = record { settings = Settings.new; paths = []; found_proxy_settings = false }

abbrev add_file : Text → ApplyOutcome × KioslavercSettings → KioslavercRead → KioslavercRead
add_file path (outcome, settings) r = record {
  settings = settings;
  paths = r.paths ++ path ∷ [];
  found_proxy_settings = r.found_proxy_settings || outcome.found_proxy_settings;
}

module _ (ini_error : Text → Option Text) (read_file : Text → FileRead) where
  -- One file, with whether the cascade ends behind it.
  read_layer : Text → FileRead → KioslavercRead → Result Error (Bool × KioslavercRead)
  read_layer path (contents t) r = apply_proxy_settings ini_error t path r.settings >>= λ applied.
      ok (applied.0.file_immutable, add_file path applied r)
  read_layer path not_found r = ok (false, r)
  read_layer path (failed e) r = err (io (lit "reading " ++ path) e)

  -- The directories from the least to the most specific.
  unfoldable pub read_layers : List Text → KioslavercRead → Result Error KioslavercRead
  unfolding read_layer
  read_layers [] r = ok r
  read_layers (dir ∷ dirs) r =
      let path = join dir file_name in
      elim (read_layer path (read_file path) r) [
        | err e ↦ err e
        | ok (true, next) ↦ ok next
        | ok (false, next) ↦ read_layers dirs next
      ]

  unfoldable pub read_kioslaverc : List Text → Result Error (Option KioslavercRead)
  unfolding read_layers
  read_kioslaverc dirs =
      read_layers (reverse dirs) nothing_read >>= λ r. ok (if is_nil r.paths then none else some r)
