-- ===== src/Kde/Silence.antt =====
-- src/sys/linux/kioslaverc.rs: which KDE settings read as direct.
use proxy_watch.Config.{ProxyConfigSource, kioslaverc}
use proxy_watch.Crates.{Crates}
use proxy_watch.Error.{Error}
use proxy_watch.Kde.{
  KdeConfig, ProxyType, no_proxy, manual_proxy, pac_proxy, wpad_proxy, env_var_proxy, proxy_type,
  mode_of, config_from_kioslaverc, kde_pac, script_mode, parse_script_location,
}
use proxy_watch.Kde.Indirect.{env_mode}
use proxy_watch.Kde.Manual.Names.{names, kde_manual-direct}
use proxy_watch.Kde.Settings.{KioslavercSettings, slots, text, needs_expansion, key_config_script}
use proxy_watch.Mode.{direct, is_direct, manual, pac, with_rejected}
use proxy_watch.Prelude.{
  ℕ, Bool, true, false, not, Option, none, some, ◌≡◌, ◌↔◌, refl, ap, sym, ◌∙◌, arith, any, is_some,
  inl, inr, Bool-cases, if◌then◌else◌,
}
use proxy_watch.Prelude.Result.{Result, ok, err, ◌>>=◌, Result-cases}
use proxy_watch.Text.{Text}

abbrev direct_of : KioslavercSettings → ProxyType → Bool
direct_of s no_proxy = true
direct_of s manual_proxy = not (any (names s) slots)
direct_of s pac_proxy = not (is_some (text s key_config_script))
direct_of s wpad_proxy = false
direct_of s env_var_proxy = false

-- No proxy, a script with no location, or manual settings with no value in a slot.
abbrev pub reads_direct : KioslavercSettings → Bool
reads_direct s = direct_of s (proxy_type s)

abbrev pub direct_config : KdeConfig
direct_config = record { source = kioslaverc; mode = direct }

abbrev is_file : ProxyConfigSource → Bool
is_file kioslaverc = true
is_file _ = false

-- The answer of a file that says direct.
abbrev says_direct : Result Error KdeConfig → Bool
says_direct (ok c) = if is_file c.source then is_direct c.mode else false
says_direct (err e) = false

says_direct_iff : (r : Result Error KdeConfig) → (r ≡ ok direct_config) ↔ (says_direct r ≡ true)
unfolding is_direct
says_direct_iff (ok c) = (λ h. ap says_direct h, λ h. ground arith)
says_direct_iff (err e) = (λ h. absurd (cc h), λ h. absurd (cc h))

module _ ⦃crates : Crates⦄ where
  script_mode-direct :
      (s : KioslavercSettings) (script : Option Text)
      → says_direct (script_mode s script >>= λ m. ok (record { source = kioslaverc; mode = m }))
        ≡ not (is_some script)
  unfolding script_mode is_direct manual with_rejected pac
  script_mode-direct s none = refl
  script_mode-direct s (some script) = elim (Bool-cases (needs_expansion s key_config_script)) [
    | inl h ↦ rw (h, script_mode) refl
    | inr h ↦ elim (Result-cases (parse_script_location script)) [
      | inl (url, e) ↦ rw (h, script_mode) (rw (e, script_mode) refl)
      | inr (fault, e) ↦ rw (h, script_mode) (rw (e, script_mode) refl)
    ]
  ]

  module _ (env : Text → Option Text) (now : ℕ) where
    mode_of-direct :
        (s : KioslavercSettings) (t : ProxyType) → says_direct (mode_of env now s t) ≡ direct_of s t
    unfolding mode_of kde_pac is_direct
    mode_of-direct s no_proxy = refl
    mode_of-direct s manual_proxy = kde_manual-direct s
    mode_of-direct s pac_proxy = script_mode-direct s (text s key_config_script)
    mode_of-direct s wpad_proxy = refl
    mode_of-direct s env_var_proxy = elim (Result-cases (env_mode env now s)) [
      | inl (m, e) ↦ rw (e, mode_of) refl
      | inr (fault, e) ↦ rw (e, mode_of) refl
    ]

    -- The settings of KDE read as direct by themselves exactly where their proxy type is none, or
    -- cannot be read, or a script with no location, or manual with no value in any of the four
    -- slots: a value that cannot be parsed or expanded keeps the mode manual.
    pub config_from_kioslaverc-direct_iff :
        (s : KioslavercSettings)
        → (config_from_kioslaverc env now s ≡ ok direct_config) ↔ (reads_direct s ≡ true)
    unfolding config_from_kioslaverc
    config_from_kioslaverc-direct_iff s =
        let same = mode_of-direct s (proxy_type s) in
        let (there, back) = says_direct_iff (config_from_kioslaverc env now s) in
        (λ h. sym same ∙ there h, λ h. back (same ∙ h))
