-- ===== src/Bypass/Lists/Reading.antt =====
-- A bypass list as a whole: what its readers keep of the entries.
use proxy_watch.Bypass.Lists.{empty_rules, push_entries, fill_rules, bypass_entries_in}
use proxy_watch.Bypass.Parse.{parse_in}
use proxy_watch.Bypass.Pattern.{HostPattern, BypassDialect, gnome, trim_entry}
use proxy_watch.Bypass.Rules.{
  BypassRules, dedup_patterns, push_entry_in, push_entry_from, push_pattern, matches,
}
use proxy_watch.Bypass.Rules.Dedup.{matches-dedup_patterns}
use proxy_watch.Crates.{Crates, Host}
use proxy_watch.Diagnostic
use proxy_watch.Diagnostic.{RejectedValue, invalid_bypass_pattern, bypass_list}
use proxy_watch.Error.{Error}
use proxy_watch.Prelude.{
  ℕ, Bool, true, false, Option, some, List, [], ◌∷◌, ◌++◌, ◌≡◌, refl, sym, ap, ◌∙◌, append-nil,
  append_assoc, arith, Option-cases, inl, inr,
}
use proxy_watch.Prelude.Result.{Result, ok, err, Result-cases}
use proxy_watch.Text.{Text}

abbrev pub is_gnome_list : BypassDialect → Bool
is_gnome_list gnome = true
is_gnome_list _ = false

abbrev pub kept : Result Error (Option HostPattern) → List HostPattern
kept (ok (some p)) = p ∷ []
kept _ = []

abbrev dropped : Text → Result Error (Option HostPattern) → List RejectedValue
dropped entry (err e) = Diagnostic.new invalid_bypass_pattern bypass_list entry ∷ []
dropped entry (ok _) = []

-- More patterns and drops behind those of the rules.
abbrev pub extend : BypassRules → List HostPattern → List RejectedValue → BypassRules
extend r ps vs = record r { patterns = r.patterns ++ ps; rejected = r.rejected ++ vs }

pub extend-extend :
    (r : BypassRules) (ps qs : List HostPattern) (vs ws : List RejectedValue)
    → extend (extend r ps vs) qs ws ≡ extend r (ps ++ qs) (vs ++ ws)
extend-extend r ps qs vs ws = rw (append_assoc r.patterns ps qs, append_assoc r.rejected vs ws) refl

pub extend-nil : (r : BypassRules) → extend r [] [] ≡ r
extend-nil r = rw (append-nil r.patterns, append-nil r.rejected) refl

module _ ⦃crates : Crates⦄ (dialect : BypassDialect) where
  -- The patterns of the entries that are accepted, in order.
  abbrev pub accepted : List Text → List HostPattern
  accepted [] = []
  accepted (entry ∷ entries) =
      kept (parse_in (trim_entry dialect entry) dialect) ++ accepted entries

  -- A drop for each entry that is refused, in order.
  abbrev pub refused : List Text → List RejectedValue
  refused [] = []
  refused (entry ∷ entries) =
      dropped (trim_entry dialect entry) (parse_in (trim_entry dialect entry) dialect)
      ++ refused entries

  push_entry_in-extend :
      (entry : Text) (r : BypassRules)
      → push_entry_in entry dialect r
        ≡ extend r (kept (parse_in entry dialect)) (dropped entry (parse_in entry dialect))
  unfolding push_entry_in push_entry_from push_pattern
  push_entry_in-extend entry r = elim (Result-cases (parse_in entry dialect)) [
    | inl (o, read) ↦ elim (Option-cases o) [
      | inl blank ↦ rw (push_entry_in, push_entry_from, read, blank) (sym (extend-nil r))
      | inr (p, some_pattern) ↦
          rw (push_entry_in, push_entry_from, read, some_pattern, append-nil r.rejected) refl
    ]
    | inr (e, unread) ↦ rw (push_entry_in, push_entry_from, unread, append-nil r.patterns) refl
  ]

  fill_rules-entries :
      is_gnome_list dialect ≡ false
      → (entries : List Text) (r : BypassRules)
      → fill_rules dialect entries r ≡ push_entries dialect entries r
  unfolding fill_rules
  fill_rules-entries h entries r = ground (arith, h)

  push_entries-extend :
      (entries : List Text) (r : BypassRules)
      → push_entries dialect entries r ≡ extend r (accepted entries) (refused entries)
  unfolding push_entries
  push_entries-extend [] r = sym (extend-nil r)
  push_entries-extend (entry ∷ entries) r =
      let head = trim_entry dialect entry in
      let outcome = parse_in head dialect in
      rw (push_entry_in-extend head r) (
        push_entries-extend entries (extend r (kept outcome) (dropped head outcome))
        ∙ extend-extend r (kept outcome) (accepted entries) (dropped head outcome)
            (refused entries))

  -- The rules that a list stands for: the patterns of its entries and its drops, with nothing
  -- collapsed.
  abbrev pub listed : List Text → BypassRules
  listed entries = extend (empty_rules dialect) (accepted entries) (refused entries)

  bypass_entries_in-listed :
      (entries : List Text)
      → is_gnome_list dialect ≡ false
      → bypass_entries_in entries dialect ≡ dedup_patterns (listed entries)
  unfolding bypass_entries_in
  bypass_entries_in-listed entries h = ap dedup_patterns (
      fill_rules-entries h entries (empty_rules dialect)
      ∙ push_entries-extend entries (empty_rules dialect))

  listed-rejected :
      (entries : List Text) → (dedup_patterns (listed entries)).rejected ≡ refused entries
  unfolding dedup_patterns empty_rules
  listed-rejected entries = refl

  -- A list that is not GNOME's is read to rules that answer every destination as its accepted
  -- entries do, in their order and with every repeat, and that hold a drop for each entry refused,
  -- in order.
  pub bypass_entries_in_lem :
      (entries : List Text)
      → is_gnome_list dialect ≡ false
      → ((host : Host) (port : Option ℕ)
          → matches (bypass_entries_in entries dialect) host port
            ≡ matches (listed entries) host port)
        × ((bypass_entries_in entries dialect).rejected ≡ refused entries)
  bypass_entries_in_lem entries h =
      rw (bypass_entries_in-listed entries h)
        (matches-dedup_patterns (listed entries), listed-rejected entries)
