-- ===== src/Windows/Registry/Silence.antt =====
-- When the values of the registry read as direct.
use proxy_watch.Crates.{Crates}
use proxy_watch.Error.{Error}
use proxy_watch.Mode.{ProxyMode, direct, is_direct, pac}
use proxy_watch.Mode.Silent.{is_direct_iff, direct_answer}
use proxy_watch.Prelude.{
  Bool, true, false, not, ◌&&◌, Option, none, some, List, [], ◌∷◌, ◌≡◌, ◌↔◌, refl, All, all,
  is_some, unwrap_or, ap, ◌∙◌, sym, inl, inr, Bool-cases, arith,
}
use proxy_watch.Prelude.Result.{Result, ok, err, Result-cases, ◌>>=◌}
use proxy_watch.Text.{Text, split}
use proxy_watch.Windows.{windows_manual, is_server_separator}
use proxy_watch.Windows.Registry.{
  Values, is_one, filled, enabled_server, decides_whether_to_proxy, static_mode, scripted,
  resolve_mode, mode_of_values, RegKey, read_values, mode_from_registry,
}
use proxy_watch.Windows.Tokens.{is_blank, windows_manual-direct_iff}

-- No token of a server, if there is one.
abbrev pub no_server : Option Text → Bool
no_server none = true
no_server (some server) = all is_blank (split is_server_separator server)

-- Neither automatic detection nor the address of a script, and no server that is switched on.
abbrev pub names_no_proxy : Values → Bool
names_no_proxy v =
    not (is_one v.auto_detect)
    && (not (is_some (filled v.auto_config_url))
        && no_server (filled (enabled_server v.enable v.server)))

-- The answer is that the mode is direct.
direct_reading : Result Error (Option ProxyMode) → Bool
direct_reading (ok (some mode)) = is_direct mode
direct_reading (ok none) = false
direct_reading (err e) = false

direct_reading_iff :
    (r : Result Error (Option ProxyMode)) → (r ≡ ok (some direct)) ↔ (direct_reading r ≡ true)
unfolding direct_reading is_direct
direct_reading_iff (ok (some mode)) =
    let (there, back) = is_direct_iff mode in
    (λ h. ap direct_reading h, λ h. ap (λ m. ok (some m)) (back h))
direct_reading_iff (ok none) = (λ h. absurd (cc h), λ h. absurd (cc h))
direct_reading_iff (err e) = (λ h. absurd (cc h), λ h. absurd (cc h))

All-all : (p : Text → Bool) (l : List Text) → All (λ t. p t ≡ true) l ↔ (all p l ≡ true)
All-all p [] = (λ _. refl, λ _. tt)
All-all p (t ∷ l) =
    let (there, back) = All-all p l in
    (λ h. ground (arith, h, there h.1), λ h. (ground (arith, h), back (ground (arith, h))))

same_test : (a b : Bool) → ((a ≡ true) ↔ (b ≡ true)) → a ≡ b
same_test true b (there, back) = sym (there refl)
same_test false true (there, back) = back refl
same_test false false _ = refl

module _ ⦃crates : Crates⦄ where
  static_mode-direct :
      (server overrides : Option Text) → is_direct (static_mode server overrides) ≡ no_server server
  unfolding is_direct
  static_mode-direct none overrides = refl
  static_mode-direct (some server) overrides =
      let (direct_there, direct_back) =
        is_direct_iff (windows_manual server (unwrap_or overrides [])) in
      let (blank_there, blank_back) = windows_manual-direct_iff server (unwrap_or overrides []) in
      let (all_there, all_back) = All-all is_blank (split is_server_separator server) in
      same_test _ _
        (λ h. all_there (blank_there (direct_back h)), λ h. direct_there (blank_back (all_back h)))

  scripted-direct :
      (url server overrides : Option Text)
      → direct_answer (scripted url server overrides)
        ≡ (not (is_some url) && no_server (filled server))
  unfolding is_direct pac
  scripted-direct none server overrides = static_mode-direct (filled server) overrides
  scripted-direct (some url) server overrides = elim (Result-cases (crates.url_parse url)) [
    | inl (u, h) ↦ rw (direct_answer, scripted, h) refl
    | inr (e, h) ↦ rw (direct_answer, scripted, h) refl
  ]

  resolve_mode-direct :
      (auto_detect : Bool) (url server overrides : Option Text)
      → direct_answer (resolve_mode auto_detect url server overrides)
        ≡ (not auto_detect && (not (is_some (filled url)) && no_server (filled server)))
  unfolding is_direct resolve_mode
  resolve_mode-direct true url server overrides = refl
  resolve_mode-direct false url server overrides = scripted-direct (filled url) server overrides

  lifted-direct :
      (r : Result Error ProxyMode) → direct_reading (r >>= λ mode. ok (some mode)) ≡ direct_answer r
  unfolding direct_reading
  lifted-direct (ok mode) = refl
  lifted-direct (err e) = refl

  mode_of_values-direct :
      (v : Values)
      → direct_reading (mode_of_values v)
        ≡ (decides_whether_to_proxy v.enable v.auto_config_url v.auto_detect && names_no_proxy v)
  unfolding mode_of_values direct_reading
  mode_of_values-direct v =
      elim (Bool-cases (decides_whether_to_proxy v.enable v.auto_config_url v.auto_detect)) [
        | inl decides ↦ rw decides (
            lifted-direct (
              resolve_mode (is_one v.auto_detect) v.auto_config_url
                (enabled_server v.enable v.server) v.overrides)
            ∙ resolve_mode-direct (is_one v.auto_detect) v.auto_config_url
                (enabled_server v.enable v.server) v.overrides)
        | inr silent ↦ rw silent refl
      ]

  -- Where the values of a key of the registry can be read, they read as direct exactly where they
  -- decide whether to use a proxy, and name none: automatic detection is off, the address of a
  -- script is blank, and the server is switched off or has only blank tokens. A token that cannot be
  -- parsed keeps the mode manual.
  pub mode_from_registry-direct_iff :
      (key : RegKey) (v : Values)
      → read_values key ≡ ok v
      → (mode_from_registry key ≡ ok (some direct)) ↔ (
          (decides_whether_to_proxy v.enable v.auto_config_url v.auto_detect && names_no_proxy v)
          ≡ true)
  unfolding mode_from_registry
  mode_from_registry-direct_iff key v h =
      let (there, back) = direct_reading_iff (mode_of_values v) in
      let same = mode_of_values-direct v in rw h (λ d. sym same ∙ there d, λ d. back (same ∙ d))
