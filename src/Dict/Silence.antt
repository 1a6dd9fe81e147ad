-- ===== src/Dict/Silence.antt =====
-- src/sys/proxy_dict.rs: which dictionaries read as direct.
use proxy_watch.Crates.{Crates}
use proxy_watch.Diagnostic.{RejectedValue}
use proxy_watch.Dict.{
  auto_discovery_enable, auto_config_enable, auto_config_url, auto_config_javascript, is_set,
  read_all_schemes, schemes_mode, script_mode, mode_from_dict,
}
use proxy_watch.Dict.Schemes.{
  Reading, dict_schemes, unroutable, unroutable_schemes, unreadable_flag, unreadable_text,
}
use proxy_watch.Dict.Schemes.Silence.{
  is_none, silent, silent_scheme, silent_unroutable, is_untouched, is_nil-append,
  unreadable_flag-is_nil, unreadable_text-is_nil, read_schemes-untouched, unroutable_schemes-is_nil,
}
use proxy_watch.Dict.Values.{ProxyDict, flag, flag_is_unusable, text, text_is_unusable, raw_text}
use proxy_watch.Dict.Values.Flags.{flag_is_unusable-some}
use proxy_watch.Error.{Error}
use proxy_watch.Mode.{ProxyMode, direct, is_direct, manual, with_rejected, pac, pac_inline}
use proxy_watch.Prelude.{
  Bool, true, false, not, ◌&&◌, Option, none, some, List, ◌++◌, ◌≡◌, ◌↔◌, refl, arith, all, ap, ◌∙◌,
  if◌then◌else◌, is_nil, or_option, inl, inr,
}
use proxy_watch.Prelude.Result.{Result, ok, err, Result-cases}
use proxy_watch.Scheme.{Scheme}
use proxy_watch.Text.{Text}

abbrev direct_answer : Result Error ProxyMode → Bool
direct_answer (ok mode) = is_direct mode
direct_answer (err e) = false

-- Neither a script nor a value in the place of one.
abbrev pub silent_script : ProxyDict → Bool
silent_script d =
    silent (flag d auto_config_enable) (flag_is_unusable d auto_config_enable)
      (or_option (raw_text d auto_config_javascript) (text d auto_config_url))
      (or_option (text_is_unusable d auto_config_javascript) (text_is_unusable d auto_config_url))

abbrev pub silent_schemes : ProxyDict → Bool
silent_schemes d = all (silent_scheme d) dict_schemes && all (silent_unroutable d) unroutable

abbrev pub is_silent_dict : ProxyDict → Bool
is_silent_dict d =
    (not (is_set (flag d auto_discovery_enable))
      && is_none (flag_is_unusable d auto_discovery_enable))
    && (silent_script d && silent_schemes d)

unless-direct :
    (b : Bool) (mode : ProxyMode)
    → is_direct mode ≡ false
    → is_direct (if b then direct else mode) ≡ b
unfolding is_direct
unless-direct true mode h = refl
unless-direct false mode h = h

and_assoc : (a b c : Bool) → ((a && b) && c) ≡ (a && (b && c))
and_assoc a b c = ground arith

untouched-append :
    (r : Reading) (more : List RejectedValue)
    → (not r.any_enabled && is_nil (r.rejected ++ more)) ≡ (is_untouched r && is_nil more)
untouched-append r more = ground (arith, is_nil-append r.rejected more)

module _ ⦃crates : Crates⦄ (d : ProxyDict) where
  schemes_mode-direct :
      (before : List RejectedValue)
      → is_direct (schemes_mode d before) ≡ (is_nil before && silent_schemes d)
  unfolding schemes_mode read_all_schemes with_rejected manual is_direct
  schemes_mode-direct before =
      let r = read_all_schemes d before in
      let more = unroutable_schemes d unroutable in
      unless-direct (not r.any_enabled && is_nil (r.rejected ++ more)) _ refl
      ∙ untouched-append r more
      ∙ ap (λ b. b && is_nil more) (read_schemes-untouched d dict_schemes _)
      ∙ ap (λ b. (is_nil before && all (silent_scheme d) dict_schemes) && b)
          (unroutable_schemes-is_nil d unroutable)
      ∙ and_assoc (is_nil before) (all (silent_scheme d) dict_schemes)
          (all (silent_unroutable d) unroutable)

  nothing_unread :
      (rejected : List RejectedValue)
      → is_nil (
          (rejected ++ unreadable_text d auto_config_javascript (some Scheme.all))
          ++ unreadable_text d auto_config_url (some Scheme.all))
        ≡ (is_nil rejected
            && is_none (
                or_option
                  (text_is_unusable d auto_config_javascript)
                  (text_is_unusable d auto_config_url)))
  nothing_unread rejected =
      let script = unreadable_text d auto_config_javascript (some Scheme.all) in
      let url = unreadable_text d auto_config_url (some Scheme.all) in
      ground (
        arith,
        is_nil-append (rejected ++ script) url,
        is_nil-append rejected script,
        unreadable_text-is_nil d auto_config_javascript (some Scheme.all),
        unreadable_text-is_nil d auto_config_url (some Scheme.all),
      )

  script_mode-direct :
      (rejected : List RejectedValue) (script url : Option Text)
      → direct_answer (script_mode d rejected script url) ≡ (
          (is_nil rejected
            && (is_none (or_option script url)
                && is_none (
                    or_option
                      (text_is_unusable d auto_config_javascript)
                      (text_is_unusable d auto_config_url))))
          && silent_schemes d)
  unfolding script_mode is_direct with_rejected pac pac_inline
  script_mode-direct rejected (some script) url = ground arith
  script_mode-direct rejected none (some url) = elim (Result-cases (crates.url_parse url)) [
    | inl (parsed, h) ↦ rw (script_mode, h) (ground arith)
    | inr (source, h) ↦ rw (script_mode, h) (ground arith)
  ]
  script_mode-direct rejected none none =
      let script = unreadable_text d auto_config_javascript (some Scheme.all) in
      let url = unreadable_text d auto_config_url (some Scheme.all) in
      schemes_mode-direct ((rejected ++ script) ++ url)
      ∙ ap (λ b. b && silent_schemes d) (nothing_unread rejected)

  config_drops : List RejectedValue
  config_drops =
      unreadable_flag d auto_discovery_enable (some Scheme.all)
      ++ unreadable_flag d auto_config_enable (some Scheme.all)

  config_drops-is_nil : is_nil config_drops ≡ (
      is_none (flag_is_unusable d auto_discovery_enable)
      && is_none (flag_is_unusable d auto_config_enable))
  unfolding config_drops
  config_drops-is_nil = ground (
    arith,
    is_nil-append (unreadable_flag d auto_discovery_enable (some Scheme.all))
        (unreadable_flag d auto_config_enable (some Scheme.all)),
    unreadable_flag-is_nil d auto_discovery_enable (some Scheme.all),
    unreadable_flag-is_nil d auto_config_enable (some Scheme.all),
  )

  mode_from_dict-answer : direct_answer (mode_from_dict d) ≡ is_silent_dict d
  unfolding mode_from_dict is_direct config_drops
  mode_from_dict-answer = ground (
    arith,
    config_drops-is_nil,
    script_mode-direct config_drops (raw_text d auto_config_javascript) (text d auto_config_url),
    schemes_mode-direct config_drops,
    flag_is_unusable-some d auto_config_enable true,
    flag_is_unusable-some d auto_config_enable false,
  )

direct_answer_iff : (r : Result Error ProxyMode) → (r ≡ ok direct) ↔ (direct_answer r ≡ true)
unfolding is_direct
direct_answer_iff r = (λ h. rw h refl, back r)
  where
    back : (r : Result Error ProxyMode) → direct_answer r ≡ true → r ≡ ok direct
    back (ok mode) h = ground (arith, h)
    back (err e) h = absurd (cc h)

-- A dictionary reads as direct exactly when it is silent: the flag for the discovery is neither on
-- nor unreadable, and no flag for the script, for a scheme or for a proxy that no scheme stands for is
-- unreadable, or is on with a text for it or with a value of another kind in the text's place. The
-- flag for simple host names and the list of exceptions do not count.
pub mode_from_dict-direct_iff :
    ⦃crates : Crates⦄ → (d : ProxyDict) → (mode_from_dict d ≡ ok direct) ↔ (is_silent_dict d ≡ true)
mode_from_dict-direct_iff d =
    let (there, back) = direct_answer_iff (mode_from_dict d) in
    (λ h. cc (there h, mode_from_dict-answer d), λ h. back (cc (h, mode_from_dict-answer d)))
