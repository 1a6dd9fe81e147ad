-- ===== src/Bypass/Lists.antt =====
-- src/parse.rs: the readers of whole bypass lists, `bypass_entries_in`, `proxy_override`,
-- `no_proxy` and `kde_no_proxy_for`.
pub mod Reading
use proxy_watch.Bypass.Gnome.{push_gnome_entries}
use proxy_watch.Bypass.Match.{ImplicitBypass, broad, win_inet, cf_network, nothing}
use proxy_watch.Bypass.Pattern.{BypassDialect, suffixes, windows, mac_os, gnome, kde, trim_entry}
use proxy_watch.Bypass.Rules
use proxy_watch.Bypass.Rules.{BypassRules, dedup_patterns, push_entry_in}
use proxy_watch.Crates.{Crates}
use proxy_watch.Prelude.{ℕ, Bool, true, false, ◌||◌, List, [], ◌∷◌, ◌==◌}
use proxy_watch.Text.{Text, split}

abbrev pub is_list_separator : ℕ → Bool
is_list_separator c = c == b','

abbrev pub is_windows_separator : ℕ → Bool
is_windows_separator c =
    c == b';' || c == b',' || c == b' ' || c == b'\t' || c == b'\r' || c == b'\n'

abbrev pub implicit_of : BypassDialect → ImplicitBypass
implicit_of suffixes = broad
implicit_of windows = win_inet
implicit_of mac_os = cf_network
implicit_of gnome = nothing
implicit_of kde = nothing

abbrev pub is_suffixes : BypassDialect → Bool
is_suffixes suffixes = true
is_suffixes _ = false

unfoldable pub empty_rules : BypassDialect → BypassRules
empty_rules dialect = record Rules.new {
  implicit = implicit_of dialect;
  strip_trailing_dot = is_suffixes dialect;
  ipv4_mapped_as_ipv4 = is_suffixes dialect;
}

module _ ⦃crates : Crates⦄ where
  unfoldable pub push_entries : BypassDialect → List Text → BypassRules → BypassRules
  push_entries dialect [] r = r
  push_entries dialect (entry ∷ entries) r =
      push_entries dialect entries (push_entry_in (trim_entry dialect entry) dialect r)

  fill_rules : BypassDialect → List Text → BypassRules → BypassRules
  unfolding push_entries
  fill_rules gnome entries r = push_gnome_entries entries r
  fill_rules dialect entries r = push_entries dialect entries r

  unfoldable pub bypass_entries_in : List Text → BypassDialect → BypassRules
  unfolding empty_rules fill_rules
  bypass_entries_in entries dialect =
      dedup_patterns (fill_rules dialect entries (empty_rules dialect))

  unfoldable pub proxy_override : Text → BypassRules
  unfolding bypass_entries_in
  proxy_override spec = bypass_entries_in (split is_windows_separator spec) windows

  unfoldable pub no_proxy : Text → BypassRules
  unfolding bypass_entries_in
  no_proxy spec = bypass_entries_in (split is_list_separator spec) suffixes

  unfoldable pub kde_no_proxy_for : Text → BypassRules
  unfolding bypass_entries_in
  kde_no_proxy_for spec = bypass_entries_in (split is_list_separator spec) kde
