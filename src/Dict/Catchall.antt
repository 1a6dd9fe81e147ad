-- ===== src/Dict/Catchall.antt =====
-- src/sys/proxy_dict.rs: a dictionary that lost its catch-all sends nothing direct by a disabled
-- entry.
use proxy_watch.Bypass.Rules.{BypassRules}
use proxy_watch.Crates.{Crates}
use proxy_watch.Diagnostic.{RejectedValue}
use proxy_watch.Dict.{
  read_all_schemes, loses_catch_all, without_disabled, enabled_only, schemes_mode, script_mode,
  mode_from_dict, is_set, auto_discovery_enable, auto_config_enable, auto_config_javascript,
  auto_config_url,
}
use proxy_watch.Dict.Bypass.{bypass_from_dict}
use proxy_watch.Dict.Schemes.{unroutable, unroutable_schemes, apply_socks_fallback}
use proxy_watch.Dict.Values.{ProxyDict, flag, text, raw_text}
use proxy_watch.Endpoint.{ProxyEntry, use_endpoint, disabled, unusable, is_disabled}
use proxy_watch.Error.{Error}
use proxy_watch.Mode.{
  ProxyMode, direct, manual_mode, wpad_auto_detect, manual, with_rejected, mirror, entry_for, pac,
  pac_inline,
}
use proxy_watch.Mode.Drops.{first_drop, get-mirror}
use proxy_watch.Mode.Lookup.{entry_for-prefer, prefer}
use proxy_watch.Mode.Table.{Slots, get}
use proxy_watch.Prelude.{
  Bool, true, false, Option, none, some, List, [], ◌∷◌, ◌≡◌, refl, arith, inl, inr, if◌then◌else◌,
  subst, not, ◌&&◌, is_nil, is_some, or_option, ◌++◌, ◌∙◌,
}
use proxy_watch.Prelude.Result.{Result, ok, err, Result-cases}
use proxy_watch.Scheme.{Scheme}
use proxy_watch.Text.{Text}

abbrev is_off : Option ProxyEntry → Bool
is_off (some disabled) = true
is_off _ = false

without_disabled-on : (m : Slots) (s : Scheme) → is_off (get (without_disabled m) s) ≡ false
without_disabled-on m s = enabled_only-on (m s)
  where
    enabled_only-on : (o : Option ProxyEntry) → is_off (enabled_only o) ≡ false
    enabled_only-on none = refl
    enabled_only-on (some (use_endpoint e)) = refl
    enabled_only-on (some disabled) = refl
    enabled_only-on (some (unusable r)) = refl

-- The slots of a manual mode whose drops lose the catch-all hold no disabled entry.
abbrev Guarded : ProxyMode → Type 0
Guarded (manual_mode m b rs) =
    (m0 : Slots) × (m ≡ mirror rs m0)
    × (loses_catch_all rs ≡ true → (s : Scheme) → is_off (get m0 s) ≡ false)
Guarded mode = Unit

kept_on :
    (loses : Bool) (m : Slots)
    → loses ≡ true
    → (s : Scheme) → is_off (get (if loses then without_disabled m else m) s) ≡ false
kept_on true m h s = without_disabled-on m s
kept_on false m h s = absurd (cc h)

unless-Guarded :
    (b : Bool) (rs : List RejectedValue) (m : Slots) (bypass : BypassRules)
    → Guarded (
        if b
        then direct
        else with_rejected rs
            (manual (if loses_catch_all rs then without_disabled m else m) bypass))
unfolding with_rejected manual
unless-Guarded true rs m bypass = tt
unless-Guarded false rs m bypass = (_, refl, kept_on (loses_catch_all rs) m)

prefer-on :
    (a b : Option ProxyEntry)
    → is_off a ≡ false
    → is_off b ≡ false
    → is_some b ≡ true
    → (e : ProxyEntry) × (prefer a b ≡ some e) × (is_disabled e ≡ false)
unfolding is_disabled
prefer-on (some (use_endpoint e)) b p q h = (use_endpoint e, refl, refl)
prefer-on (some disabled) b p q h = absurd (cc p)
prefer-on a (some disabled) p q h = absurd (cc q)
prefer-on a none p q h = absurd (cc h)
prefer-on (some (unusable r)) (some (use_endpoint e)) p q h = (use_endpoint e, refl, refl)
prefer-on (some (unusable r)) (some (unusable t)) p q h = (unusable r, refl, refl)
prefer-on none (some (use_endpoint e)) p q h = (use_endpoint e, refl, refl)
prefer-on none (some (unusable t)) p q h = (unusable t, refl, refl)

first_drop-on :
    (s : Scheme) (rs : List RejectedValue) (o : Option ProxyEntry)
    → is_off o ≡ false
    → is_off (or_option o (first_drop s rs)) ≡ false
first_drop-on s [] none h = refl
first_drop-on s (v ∷ rs) none h = ground (arith, first_drop-on s rs none)
first_drop-on s rs (some e) h = h

first_drop-catch_all :
    (rs : List RejectedValue) (o : Option ProxyEntry)
    → loses_catch_all rs ≡ true
    → is_some (or_option o (first_drop Scheme.all rs)) ≡ true
first_drop-catch_all rs (some e) h = refl
first_drop-catch_all [] none h = absurd (cc h)
first_drop-catch_all (v ∷ rs) none h = ground (arith, h, first_drop-catch_all rs none)

module _ ⦃crates : Crates⦄ where
  schemes_mode-Guarded :
      (d : ProxyDict) (before : List RejectedValue) → Guarded (schemes_mode d before)
  unfolding schemes_mode with_rejected manual
  schemes_mode-Guarded d before =
      let r = read_all_schemes d before in
      let rejected = r.rejected ++ unroutable_schemes d unroutable in
      unless-Guarded (not r.any_enabled && is_nil rejected) rejected
        (apply_socks_fallback r.per_scheme) (bypass_from_dict d)

  abbrev Answers : Result Error ProxyMode → Type 0
  Answers (ok mode) = Guarded mode
  Answers (err e) = Unit

  script_mode-Guarded :
      (d : ProxyDict) (rejected : List RejectedValue) (script url : Option Text)
      → Answers (script_mode d rejected script url)
  unfolding script_mode with_rejected pac pac_inline
  script_mode-Guarded d rejected (some script) url = tt
  script_mode-Guarded d rejected none (some url) = elim (Result-cases (crates.url_parse url)) [
    | inl (parsed, h) ↦ rw (script_mode, h) tt
    | inr (source, h) ↦ rw (script_mode, h) tt
  ]
  script_mode-Guarded d rejected none none = schemes_mode-Guarded d _

  if-Answers :
      (b : Bool) (x y : Result Error ProxyMode)
      → Answers x
      → Answers y
      → Answers (if b then x else y)
  if-Answers true x y p q = p
  if-Answers false x y p q = q

  mode_from_dict-Guarded : (d : ProxyDict) → Answers (mode_from_dict d)
  unfolding mode_from_dict
  mode_from_dict-Guarded d =
      if-Answers (is_set (flag d auto_discovery_enable)) (ok wpad_auto_detect) _ tt (
        if-Answers (is_set (flag d auto_config_enable))
          (script_mode d _ (raw_text d auto_config_javascript) (text d auto_config_url))
          (ok (schemes_mode d _))
          (script_mode-Guarded d _ (raw_text d auto_config_javascript) (text d auto_config_url))
          (schemes_mode-Guarded d _))

  -- Where the drops of a dictionary that reads as a manual mode take the catch-all away, every
  -- scheme has an entry, and it is not a disabled one: no request goes direct by the entries.
  pub mode_from_dict-catch_all :
      (d : ProxyDict) (m : Slots) (b : BypassRules) (rs : List RejectedValue) (s : Scheme)
      → mode_from_dict d ≡ ok (manual_mode m b rs)
      → loses_catch_all rs ≡ true
      → (e : ProxyEntry) × (entry_for s (manual_mode m b rs) ≡ some e) × (is_disabled e ≡ false)
  mode_from_dict-catch_all d m b rs s h loses =
      let (m0, mirrored, on) : Guarded (manual_mode m b rs) =
        subst Answers h (mode_from_dict-Guarded d) in
      let mirrored_on : (t : Scheme) → is_off (get m t) ≡ false =
        λ t. rw (mirrored, get-mirror rs m0 t) (first_drop-on t rs (get m0 t) (on loses t)) in
      let (e, found, live) =
        prefer-on (get m s) (get m Scheme.all) (mirrored_on s) (mirrored_on Scheme.all) (
          rw (mirrored, get-mirror rs m0 Scheme.all)
            (first_drop-catch_all rs (get m0 Scheme.all) loses)) in
      (e, entry_for-prefer m b rs s ∙ found, live)
