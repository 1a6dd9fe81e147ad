-- ===== src/Gnome/Hosts.antt =====
-- src/sys/linux/gsettings_map.rs: which GNOME settings read as direct.
use proxy_watch.Crates.{Crates}
use proxy_watch.Diagnostic.{RejectedValue, for_scheme}
use proxy_watch.Endpoint.{ProxyEndpoint, parse_endpoint, is_disabled}
use proxy_watch.Gnome.{
  host_of, same_proxy, child_endpoint, child_endpoint_for, same_slots, own_slots, slot, slots_from,
  inherited_drops, inherited_https, catch_all, all_disabled, manual_slots, gnome_manual, automatic,
  mode_from_settings, affects,
}
use proxy_watch.Gnome.Settings.{
  GnomeSettings, ChildKeys, http_child, https_child, ftp_child, socks_child, key_mode,
  key_autoconfig_url, text,
}
use proxy_watch.Mode.{direct, is_direct, manual, with_rejected, pac}
use proxy_watch.Mode.Silent.{unless-direct, direct_answer, direct_answer_iff}
use proxy_watch.Prelude.{
  Bool, true, false, not, ◌&&◌, ◌||◌, Option, none, some, List, [], ◌∷◌, ◌++◌, ◌≡◌, ◌↔◌, refl, ap,
  sym, ◌∙◌, arith, find, is_nil, is_some, or_option, unwrap_or, inl, inr, Option-cases,
  if◌then◌else◌,
}
use proxy_watch.Prelude.Result.{ok, Result-cases}
use proxy_watch.Scheme.{Scheme}
use proxy_watch.Text.{Text, lit, text_eq}

same_slots-disabled :
    (http https ftp socks : Option ProxyEndpoint)
    → all_disabled (
        catch_all socks
          (same_slots (record { http = http; https = https; ftp = ftp; socks = socks })))
      ≡ not (is_some http || (is_some https || (is_some ftp || is_some socks)))
unfolding same_slots is_disabled
same_slots-disabled http https ftp socks = ground arith

own_slots-disabled :
    (there : Bool) (drops : List RejectedValue)
    (inherited http https ftp socks : Option ProxyEndpoint)
    → all_disabled (
        catch_all socks (
          own_slots there drops inherited
            (record { http = http; https = https; ftp = ftp; socks = socks })))
      ≡ not
          (is_some http || (is_some (or_option https inherited) || (is_some ftp || is_some socks)))
unfolding own_slots slot is_disabled
own_slots-disabled there drops inherited http https ftp socks = ground arith

inherited_drops-is_nil :
    (host : Option Text) (drops : List RejectedValue)
    → is_nil (inherited_drops host drops) ≡ is_nil drops
unfolding inherited_drops
inherited_drops-is_nil (some host) drops = refl
inherited_drops-is_nil none drops = elim (Option-cases (find (affects Scheme.http) drops)) [
  | inl h ↦ rw (inherited_drops, h) refl
  | inr (v, h) ↦ rw (inherited_drops, h) (nonempty v drops h)
]
  where
    nonempty :
        (v : RejectedValue) (drops : List RejectedValue)
        → find (affects Scheme.http) drops ≡ some v
        → is_nil (drops ++ for_scheme (some Scheme.https) v ∷ []) ≡ is_nil drops
    nonempty v [] h = absurd (cc h)
    nonempty v (d ∷ drops) h = refl

is_nil-append : (xs ys : List RejectedValue) → is_nil (xs ++ ys) ≡ (is_nil xs && is_nil ys)
is_nil-append [] ys = refl
is_nil-append (x ∷ xs) ys = refl

abbrev has_host : GnomeSettings → ChildKeys → Bool
has_host s keys = is_some (host_of s keys)

-- No child has a host.
abbrev pub no_hosts : GnomeSettings → Bool
no_hosts s = not (
    has_host s http_child
    || (has_host s https_child || (has_host s ftp_child || has_host s socks_child)))

-- What each child adds to the two tests of `manual_mode`.
tests_of :
    (host : Option Text) (http https ftp socks inherited : Option ProxyEndpoint)
    → inherited ≡ inherited_https host http
    → (is_some http || (is_some (or_option https inherited) || (is_some ftp || is_some socks)))
      ≡ (is_some http || (is_some https || (is_some ftp || is_some socks)))
unfolding inherited_https
tests_of (some host) http https ftp socks inherited h = ground (arith, h)
tests_of none http https ftp socks inherited h = ground (arith, h)

abbrev any_found : (http https ftp socks : Option ProxyEndpoint) → Bool
any_found http https ftp socks = is_some http || (is_some https || (is_some ftp || is_some socks))

slots_from-direct :
    (same : Bool) (https_host : Option Text) (socks_host : Bool)
    (http https ftp socks : Option ProxyEndpoint) (drops : List RejectedValue)
    → (let r =
          slots_from same https_host socks_host
            (record { http = http; https = https; ftp = ftp; socks = socks })
            drops in
        (all_disabled r.0 && is_nil r.1) ≡ (not (any_found http https ftp socks) && is_nil drops))
unfolding slots_from
slots_from-direct true https_host socks_host http https ftp socks drops =
    ap (λ b. b && is_nil drops) (same_slots-disabled http https ftp socks)
slots_from-direct false https_host socks_host http https ftp socks drops =
    let inherited = inherited_https https_host http in
    let noted = inherited_drops https_host drops in
    ap (λ b. b && is_nil noted)
      (own_slots-disabled (is_some socks || socks_host) noted inherited http https ftp socks
        ∙ ap not (tests_of https_host http https ftp socks inherited refl))
    ∙ ap (λ b. not (any_found http https ftp socks) && b) (inherited_drops-is_nil https_host drops)

children :
    (http https ftp socks : Option ProxyEndpoint) (a b c d : List RejectedValue)
    → (not (any_found http https ftp socks) && is_nil (((a ++ b) ++ c) ++ d))
      ≡ (not (any_found http https ftp socks) && (((is_nil a && is_nil b) && is_nil c) && is_nil d))
children http https ftp socks a b c d =
    ground (arith, is_nil-append ((a ++ b) ++ c) d, is_nil-append (a ++ b) c, is_nil-append a b)

four_hosts :
    (e f g h a b c d : Bool) {w x y z : Bool}
    → (e || not a) ≡ w
    → (f || not b) ≡ x
    → (g || not c) ≡ y
    → (h || not d) ≡ z
    → (not (e || (f || (g || h))) && (((a && b) && c) && d)) ≡ not (w || (x || (y || z)))
four_hosts e f g h a b c d p q r s = ground (arith, p, q, r, s)

module _ ⦃crates : Crates⦄ (s : GnomeSettings) where
  -- A child gives an endpoint or a drop exactly where it has a host.
  child_endpoint-host :
      (keys : ChildKeys) (host : Option Text)
      → (is_some (child_endpoint s keys host).0 || not (is_nil (child_endpoint s keys host).1))
        ≡ is_some host
  unfolding child_endpoint
  child_endpoint-host keys none = refl
  child_endpoint-host keys (some host) =
      elim (Result-cases (parse_endpoint host keys.default_port)) [
        | inl (e, h) ↦ rw (child_endpoint, h) refl
        | inr (e, h) ↦ rw (child_endpoint, h) refl
      ]

  child_endpoint_for-host :
      (keys : ChildKeys)
      → (is_some (child_endpoint_for s keys).0 || not (is_nil (child_endpoint_for s keys).1))
        ≡ has_host s keys
  unfolding child_endpoint_for
  child_endpoint_for-host keys = child_endpoint-host keys (host_of s keys)

  manual_slots-direct : (all_disabled (manual_slots s).0 && is_nil (manual_slots s).1) ≡ no_hosts s
  unfolding manual_slots
  manual_slots-direct =
      let http = child_endpoint_for s http_child in
      let https = child_endpoint_for s https_child in
      let ftp = child_endpoint_for s ftp_child in
      let socks = child_endpoint_for s socks_child in
      slots_from-direct (same_proxy s) (host_of s https_child) (is_some (host_of s socks_child))
        http.0 https.0 ftp.0 socks.0 _
      ∙ children http.0 https.0 ftp.0 socks.0 http.1 https.1 ftp.1 socks.1
      ∙ four_hosts _ _ _ _ _ _ _ _ (child_endpoint_for-host http_child)
          (child_endpoint_for-host https_child) (child_endpoint_for-host ftp_child)
          (child_endpoint_for-host socks_child)

  gnome_manual-direct : is_direct (gnome_manual s) ≡ no_hosts s
  unfolding gnome_manual is_direct with_rejected manual
  gnome_manual-direct = unless-direct _ _ refl ∙ manual_slots-direct

-- Settings with no mode, or one that is neither manual nor automatic, and manual ones with no host.
abbrev pub reads_direct : GnomeSettings → Bool
reads_direct s =
    let mode = unwrap_or (text s key_mode) (lit "none") in
    if text_eq mode (lit "manual") then no_hosts s else not (text_eq mode (lit "auto"))

module _ ⦃crates : Crates⦄ where
  automatic-direct : (url : Option Text) → direct_answer (automatic url) ≡ false
  unfolding automatic is_direct pac
  automatic-direct none = refl
  automatic-direct (some url) = elim (Result-cases (crates.url_parse url)) [
    | inl (parsed, h) ↦ rw (automatic, h) refl
    | inr (e, h) ↦ rw (automatic, h) refl
  ]

  answer_of :
      (s : GnomeSettings) (is_manual is_auto : Bool)
      → direct_answer (
          if is_manual
          then ok (gnome_manual s)
          else if is_auto
          then automatic (text s key_autoconfig_url)
          else ok direct)
        ≡ (if is_manual then no_hosts s else not is_auto)
  unfolding is_direct
  answer_of s true is_auto = gnome_manual-direct s
  answer_of s false true = automatic-direct (text s key_autoconfig_url)
  answer_of s false false = refl

  -- GNOME settings read as direct exactly where their mode is neither manual nor automatic, or is
  -- manual and no child has a host: a host that cannot be parsed keeps the mode manual.
  pub mode_from_settings-direct_iff :
      (s : GnomeSettings) → (mode_from_settings s ≡ ok direct) ↔ (reads_direct s ≡ true)
  unfolding mode_from_settings
  mode_from_settings-direct_iff s =
      let mode = unwrap_or (text s key_mode) (lit "none") in
      let same = answer_of s (text_eq mode (lit "manual")) (text_eq mode (lit "auto")) in
      let (there, back) = direct_answer_iff (mode_from_settings s) in
      (λ h. sym same ∙ there h, λ h. back (same ∙ h))
