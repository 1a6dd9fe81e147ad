-- ===== src/Android/Exclusions.antt =====
-- The exclusions of a default proxy of Android: what is kept of them.
use proxy_watch.Android.{matches_no_host, is_separator, joins_empty, pieces, default_exclusions}
use proxy_watch.Bypass.Lists.Reading.{kept}
use proxy_watch.Bypass.Parse.{parse_in}
use proxy_watch.Bypass.Pattern.{HostPattern, subtract_implicit, windows}
use proxy_watch.Bypass.Rules
use proxy_watch.Bypass.Rules.{BypassRules}
use proxy_watch.Crates.{Crates}
use proxy_watch.Diagnostic
use proxy_watch.Diagnostic.{RejectedValue, invalid_bypass_pattern, proxy_info}
use proxy_watch.Error.{Error}
use proxy_watch.Prelude.{false, is_nil, Option, List, [], ◌∷◌, ◌++◌, if◌then◌else◌}
use proxy_watch.Prelude.Result.{Result, ok, err}
use proxy_watch.Text.{Text, lit, split}

abbrev drop_of : Text → RejectedValue
drop_of entry = Diagnostic.new invalid_bypass_pattern (proxy_info (lit "exclusionList")) entry

abbrev dropped : Text → Result Error (Option HostPattern) → List RejectedValue
dropped entry (err e) = drop_of entry ∷ []
dropped entry (ok _) = []

-- `join(",")`
abbrev pub joined_list : List Text → Text
joined_list [] = []
joined_list (element ∷ []) = element
joined_list (element ∷ other ∷ elements) = element ++ b',' ∷ joined_list (other ∷ elements)

-- What the selector of the framework works on: the elements joined by commas and cut again at each
-- comma and bar, and behind them the ones that always count, unless the text joined is empty.
abbrev pub selector_entries : List Text → List Text
selector_entries exclusions =
    split is_separator (joined_list exclusions)
    ++ (if is_nil (joined_list exclusions) then [] else default_exclusions)

abbrev read_entries : List Text → List Text
read_entries exclusions =
    pieces exclusions ++ (if joins_empty exclusions then [] else default_exclusions)

module _ ⦃crates : Crates⦄ where
  -- The patterns of the entries that can match a host and that are accepted, in order.
  abbrev pub patterns_of : List Text → List HostPattern
  patterns_of [] = []
  patterns_of (entry ∷ entries) =
      (if matches_no_host entry then [] else kept (parse_in entry windows)) ++ patterns_of entries

  -- A drop for each entry that can match no host or that is refused, in order.
  abbrev pub drops_of_list : List Text → List RejectedValue
  drops_of_list [] = []
  drops_of_list (entry ∷ entries) =
      (if matches_no_host entry then drop_of entry ∷ [] else dropped entry (parse_in entry windows))
      ++ drops_of_list entries

  -- The rules that the entries stand for, with nothing collapsed: the implicit ones taken away, and
  -- then the patterns.
  abbrev pub excluding : List Text → BypassRules
  excluding entries = record Rules.new {
    patterns = subtract_implicit ∷ patterns_of entries;
    rejected = drops_of_list entries;
    strip_trailing_dot = false;
    ipv4_mapped_as_ipv4 = false;
  }
