-- ===== src/Bypass/Parse/Entry.antt =====
-- `HostPattern::parse_in` itself.
pub mod Refusals
use proxy_watch.Bypass.Parse.Body.{guard_host, guard_labels, guard_suffix, build_star, build_bare}
use proxy_watch.Bypass.Parse.Flow.{Parsed, Flow, return, go, ◌>>=◌, ◌>>◌, found, or_refuse, result}
use proxy_watch.Bypass.Parse.Guards.{token_entry, guard_text, folded_cidr, read_cidr, guard_slash}
use proxy_watch.Bypass.Pattern.{HostPattern, BypassDialect, trim_entry, idna_ascii}
use proxy_watch.Crates.{Crates}
use proxy_watch.Prelude.{Option, none, some, if◌then◌else◌, is_nil}
use proxy_watch.Prelude.Result.{ok}
use proxy_watch.Text.{Text, lower, is_ascii}
use proxy_watch.Util.HostPort.{split_host_port, strip_brackets}

abbrev take_token : Option HostPattern → Flow (Unit {0})
take_token none = go tt
take_token (some p) = return (found p)

module _ ⦃crates : Crates⦄ where
  -- From the split of the port on.
  parse_host_entry : BypassDialect → Text → Text → Flow Parsed
  parse_host_entry dialect entry lowered = do
    parts ← or_refuse entry (split_host_port lowered)
    let stripped = strip_brackets parts.0
    guard_host dialect entry parts.0 stripped parts.1
    host_text ← (if is_ascii stripped then go stripped else or_refuse entry (idna_ascii stripped))
    guard_labels entry host_text
    guard_suffix entry host_text
    build_star dialect entry parts.1 host_text
    go (build_bare dialect entry parts.1 host_text)

  parse_trimmed : BypassDialect → Text → Flow Parsed
  unfolding parse_host_entry
  parse_trimmed dialect entry = do
    let lowered = lower entry
    take_token (token_entry dialect lowered)
    guard_text dialect entry lowered
    folded_cidr dialect entry lowered
    read_cidr lowered
    guard_slash entry lowered
    parse_host_entry dialect entry lowered

  unfoldable pub parse_in : Text → BypassDialect → Parsed
  unfolding parse_trimmed token_entry guard_text folded_cidr read_cidr guard_slash guard_host
      guard_labels guard_suffix build_star build_bare
  parse_in entry dialect =
      let trimmed = trim_entry dialect entry in
      if is_nil trimmed then ok none else result (parse_trimmed dialect trimmed)
