-- ===== src/Files.antt =====
-- Paths and the reading of files (`std::path`, `std::fs`), which the program does not implement: a
-- path is a text, and reading a file is an argument of what reads one.
use proxy_watch.Prelude.{Bool, ◌∷◌, ◌++◌, if◌then◌else◌, is_nil}
use proxy_watch.Text.{Text, lit, starts_with, ends_with}

abbrev pub is_absolute : Text → Bool
is_absolute path = starts_with (lit "/") path

-- `Path::join` with a relative path
abbrev pub join : Text → Text → Text
join dir name =
    if is_nil dir then name else if ends_with (lit "/") dir then dir ++ name else dir ++ b'/' ∷ name

-- What reading a file gives: its text, no such file, or an error.
pub data FileRead : Type 0 where
  contents : Text → FileRead
  not_found : FileRead
  failed : Text → FileRead
