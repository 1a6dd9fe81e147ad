-- ===== src/Kde/Address.antt =====
-- src/sys/linux/kioslaverc.rs: `normalize_address`, which puts the port behind a colon.
use proxy_watch.Prelude.{Option, none, some, [], ◌∷◌, ◌++◌, if◌then◌else◌, is_some}
use proxy_watch.Text.{Text, lit, is_whitespace, trim_with, find_text}
use proxy_watch.Text.Address.{parse_ipv6}
use proxy_watch.Text.Number.{all_digits}

abbrev trim : Text → Text
trim = trim_with is_whitespace

-- `rsplit_once(char::is_whitespace)`
unfoldable pub rsplit_space : Text → Option (Text × Text)
rsplit_space [] = none
rsplit_space (c ∷ cs) = elim (rsplit_space cs) [
  | some (before, after) ↦ some (c ∷ before, after)
  | none ↦ if is_whitespace c then some ([], cs) else none
]

-- The scheme with its slashes, and the rest.
prefix_of : Text → Text × Text
prefix_of host = elim (find_text (lit "://") host) [
  | some (scheme, rest) ↦ (scheme ++ lit "://", rest)
  | none ↦ ([], host)
]

unfoldable pub fold_port : Text → Text → Text
unfolding prefix_of
fold_port host port =
    let (scheme, bare) = prefix_of host in
    if is_some (parse_ipv6 bare)
    then scheme ++ b'[' ∷ bare ++ b']' ∷ b':' ∷ port
    else host ++ b':' ∷ port

unfoldable pub normalize_address : Text → Text
unfolding rsplit_space fold_port
normalize_address raw =
    let trimmed = trim raw in
    elim (rsplit_space trimmed) [
      | none ↦ trimmed
      | some (host, port) ↦ if all_digits port then fold_port (trim host) port else trimmed
    ]
