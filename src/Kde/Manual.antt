-- ===== src/Kde/Manual.antt =====
-- src/sys/linux/kioslaverc.rs: `manual_mode` and `bypass_from`.
pub mod Names
use proxy_watch.Bypass.Lists.{kde_no_proxy_for}
use proxy_watch.Bypass.Match.{nothing}
use proxy_watch.Bypass.Rules
use proxy_watch.Bypass.Rules.{BypassRules}
use proxy_watch.Crates.{Crates}
use proxy_watch.Diagnostic
use proxy_watch.Diagnostic.{
  RejectedValue, RejectionKind, invalid_proxy_endpoint, unsupported_mapping, kioslaverc, for_scheme,
}
use proxy_watch.Endpoint.{
  ProxyEndpoint, ProxyEntry, use_endpoint, disabled, is_disabled, parse_endpoint, with_scheme_hint,
}
use proxy_watch.Kde.Address.{normalize_address}
use proxy_watch.Kde.Settings.{
  KioslavercSettings, SlotKeys, slots, text, has_key, needs_expansion, reversed_exception,
  key_no_proxy_for,
}
use proxy_watch.Mode.{ProxyMode, direct, manual, with_rejected}
use proxy_watch.Mode.Table.{Slots, no_slots, get, insert}
use proxy_watch.Prelude.{
  Bool, true, false, not, ◌&&◌, ◌||◌, Option, none, some, List, [], ◌∷◌, ◌++◌, if◌then◌else◌, all,
  is_nil, is_some,
}
use proxy_watch.Prelude.Result.{Result, ok, err}
use proxy_watch.Scheme.{Scheme, ProxyScheme, schemes, scheme_eq}
use proxy_watch.Text.{Text}

-- A record for a slot.
abbrev pub dropped : RejectionKind → SlotKeys → Scheme → Text → RejectedValue
dropped kind slot scheme raw =
    for_scheme (some scheme) (Diagnostic.new kind (kioslaverc slot.key) raw)

-- The variables of the loop over the slots.
pub record Filling : Type 0 where
  pub per_scheme : Slots
  pub rejected : List RejectedValue
  pub socks : Option ProxyEndpoint
  pub socks_unusable : Bool
  pub blank : List Scheme

abbrev pub nothing_filled : Filling
nothing_filled = record {
  per_scheme = no_slots;
  rejected = [];
  socks = none;
  socks_unusable = false;
  blank = [];
}

abbrev is_socks : SlotKeys → Bool
is_socks slot = scheme_eq slot.scheme Scheme.socks

-- A drop of the SOCKS slot is one of the catch-all.
abbrev pub attributed_scheme : SlotKeys → Scheme
attributed_scheme slot = if is_socks slot then Scheme.all else slot.scheme

abbrev hinted : Option ProxyScheme → ProxyEndpoint → ProxyEndpoint
hinted none e = e
hinted (some hint) e = if is_some e.scheme_hint then e else with_scheme_hint hint e

abbrev reject : RejectedValue → Filling → Filling
reject v f = record f { rejected = f.rejected ++ v ∷ [] }

-- An endpoint in its slot, and as the one of SOCKS.
use_slot : SlotKeys → ProxyEndpoint → Filling → Filling
use_slot slot e f = record f {
  per_scheme = insert slot.scheme (use_endpoint e) f.per_scheme;
  socks = if is_socks slot then some e else f.socks;
}

-- The entries of the catch-all, or of the blank slots where nothing can serve them.
disable : List Scheme → Slots → Slots
disable [] m = m
disable (s ∷ ss) m = disable ss (insert s disabled m)

unfoldable pub completed : Filling → Slots
unfolding disable
completed f = elim f.socks [
  | some e ↦ insert Scheme.all (use_endpoint e) f.per_scheme
  | none ↦ if f.socks_unusable then f.per_scheme else disable f.blank f.per_scheme
]

abbrev off : Option ProxyEntry → Bool
off none = true
off (some e) = is_disabled e

abbrev pub all_disabled : Slots → Bool
all_disabled m = all (λ s. off (get m s)) schemes

module _ ⦃crates : Crates⦄ where
  -- A slot with a value.
  read_raw : KioslavercSettings → SlotKeys → Text → Filling → Filling
  unfolding use_slot
  read_raw s slot raw f =
      if needs_expansion s slot.key
      then reject (dropped unsupported_mapping slot (attributed_scheme slot) raw) f
      else elim (parse_endpoint (normalize_address raw) slot.default_port) [
        | err _ ↦ reject (dropped invalid_proxy_endpoint slot (attributed_scheme slot) raw) f
        | ok e ↦ use_slot slot (hinted slot.hint e) f
      ]

  fill : KioslavercSettings → SlotKeys → Filling → Filling
  unfolding read_raw
  fill s slot f = if not (has_key s slot.key) then f else elim (text s slot.key) [
    | none ↦ record f { blank = f.blank ++ slot.scheme ∷ [] }
    | some raw ↦
        read_raw s slot raw (record f { socks_unusable = f.socks_unusable || is_socks slot })
  ]

  fill_slots : KioslavercSettings → List SlotKeys → Filling → Filling
  unfolding fill
  fill_slots s [] f = f
  fill_slots s (slot ∷ rest) f = fill_slots s rest (fill s slot f)

  listed : KioslavercSettings → Option Text → BypassRules
  listed s none = Rules.new
  listed s (some list) =
      if needs_expansion s key_no_proxy_for
      then record Rules.new {
        rejected = Diagnostic.new unsupported_mapping (kioslaverc key_no_proxy_for) list ∷ [];
      }
      else kde_no_proxy_for list

  unfoldable pub bypass_from : KioslavercSettings → BypassRules
  unfolding listed
  bypass_from s =
      let rules = listed s (text s key_no_proxy_for) in
      record rules {
        implicit = nothing;
        ipv4_mapped_as_ipv4 = false;
        strip_trailing_dot = false;
        reversed_exceptions = reversed_exception s || rules.reversed_exceptions;
      }

  unfoldable pub kde_manual : KioslavercSettings → ProxyMode
  unfolding fill_slots completed bypass_from
  kde_manual s =
      let f = fill_slots s slots nothing_filled in
      let m = completed f in
      if all_disabled m && is_nil f.rejected
      then direct
      else with_rejected f.rejected (manual m (bypass_from s))
