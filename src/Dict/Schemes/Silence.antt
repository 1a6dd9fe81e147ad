-- ===== src/Dict/Schemes/Silence.antt =====
-- src/sys/proxy_dict.rs: which keys of a scheme leave neither an entry in use nor a drop.
use proxy_watch.Crates.{Crates}
use proxy_watch.Diagnostic.{invalid_proxy_endpoint, RejectedValue}
use proxy_watch.Dict.Schemes.{
  attributed_scheme, drop_at, dropping, drop_unusable, Reading, SchemeKeys, UnroutableKeys,
  read_host, with_port, use_scheme, read_enabled, read_schemes, unroutable_drops, unroutable_host,
  unroutable_schemes, unreadable_flag, unreadable_text,
}
use proxy_watch.Dict.Values.Flags.{flag_is_unusable-some}
use proxy_watch.Dict.Values.{ProxyDict, flag, flag_is_unusable, text, text_is_unusable}
use proxy_watch.Endpoint.{parse_endpoint, ProxyEndpoint}
use proxy_watch.Prelude.{
  ℕ, Bool, true, false, not, ◌&&◌, Option, none, some, List, [], ◌∷◌, ◌++◌, ◌≡◌, refl, arith, all,
  is_nil, is_some, inl, inr,
}
use proxy_watch.Prelude.Result.{Result-cases}
use proxy_watch.Scheme.{Scheme}
use proxy_watch.Text.{Text}

abbrev pub is_none {ℓ} : {A : Type ℓ} → Option A → Bool
is_none o = not (is_some o)

-- A key with nothing to use and nothing to report: no flag, or one that is off, or one that is on
-- with no host.
abbrev pub silent : Option Bool → Option Text → Option Text → Option Text → Bool
silent none bad_flag host bad_host = is_none bad_flag
silent (some false) bad_flag host bad_host = true
silent (some true) bad_flag host bad_host = is_none host && is_none bad_host

abbrev pub is_silent : ProxyDict → Text → Text → Bool
is_silent d enable host =
    silent (flag d enable) (flag_is_unusable d enable) (text d host) (text_is_unusable d host)

abbrev pub silent_scheme : ProxyDict → SchemeKeys → Bool
silent_scheme d keys = is_silent d keys.enable keys.host

abbrev pub silent_unroutable : ProxyDict → UnroutableKeys → Bool
silent_unroutable d keys = is_silent d keys.enable keys.host

abbrev pub is_untouched : Reading → Bool
is_untouched r = not r.any_enabled && is_nil r.rejected

pub is_nil-append : (xs ys : List RejectedValue) → is_nil (xs ++ ys) ≡ (is_nil xs && is_nil ys)
is_nil-append [] ys = refl
is_nil-append (x ∷ xs) ys = refl

dropping-untouched :
    (more : List RejectedValue) (r : Reading)
    → is_untouched (dropping more r) ≡ (is_untouched r && is_nil more)
dropping-untouched more r = ground (arith, is_nil-append r.rejected more)

drop_unusable-is_nil :
    (key : Text) (scheme : Option Scheme) (o : Option Text)
    → is_nil (drop_unusable key scheme o) ≡ is_none o
drop_unusable-is_nil key scheme none = refl
drop_unusable-is_nil key scheme (some value) = refl

module _ (d : ProxyDict) where
  pub unreadable_flag-is_nil :
      (key : Text) (scheme : Option Scheme)
      → is_nil (unreadable_flag d key scheme) ≡ is_none (flag_is_unusable d key)
  unfolding unreadable_flag
  unreadable_flag-is_nil key scheme = drop_unusable-is_nil key scheme (flag_is_unusable d key)

  pub unreadable_text-is_nil :
      (key : Text) (scheme : Option Scheme)
      → is_nil (unreadable_text d key scheme) ≡ is_none (text_is_unusable d key)
  unfolding unreadable_text
  unreadable_text-is_nil key scheme = drop_unusable-is_nil key scheme (text_is_unusable d key)

  with_port-untouched :
      (p : Option ℕ) (bad : Option Text) (keys : SchemeKeys) (e : ProxyEndpoint) (r : Reading)
      → is_untouched (with_port p bad d keys e r) ≡ false
  unfolding with_port use_scheme
  with_port-untouched (some p) bad keys e r = refl
  with_port-untouched none (some value) keys e r = ground (
    arith,
    dropping-untouched
        (drop_at invalid_proxy_endpoint keys.port (some (attributed_scheme keys)) value ∷ []) r,
  )
  with_port-untouched none none keys e r = refl

  module _ ⦃crates : Crates⦄ where
    read_host-untouched :
        (keys : SchemeKeys) (host : Option Text) (r : Reading)
        → is_untouched (read_host d keys host r)
          ≡ (is_untouched r && (is_none host && is_none (text_is_unusable d keys.host)))
    unfolding read_host
    read_host-untouched keys none r = ground (
      arith,
      dropping-untouched (unreadable_text d keys.host (some (attributed_scheme keys))) r,
      unreadable_text-is_nil keys.host (some (attributed_scheme keys)),
    )
    read_host-untouched keys (some host) r =
        elim (Result-cases (parse_endpoint host keys.default_port)) [
          | inl (e, h) ↦ rw (read_host, h) (grind (arith, with_port-untouched))
          | inr (bad, h) ↦
              rw (read_host, h)
                (ground (
                  arith,
                  dropping-untouched
                      (drop_at invalid_proxy_endpoint keys.host (some (attributed_scheme keys)) host
                        ∷ [])
                      r,
                ))
        ]

    read_enabled-untouched :
        (keys : SchemeKeys) (on : Option Bool) (r : Reading)
        → is_untouched (read_enabled d keys on r) ≡ (
            is_untouched r
            && silent on
                (flag_is_unusable d keys.enable)
                (text d keys.host)
                (text_is_unusable d keys.host))
    unfolding read_enabled
    read_enabled-untouched keys none r = ground (
      arith,
      dropping-untouched (unreadable_flag d keys.enable (some (attributed_scheme keys))) r,
      unreadable_flag-is_nil keys.enable (some (attributed_scheme keys)),
    )
    read_enabled-untouched keys (some false) r = ground arith
    read_enabled-untouched keys (some true) r = read_host-untouched keys (text d keys.host) r

    pub read_schemes-untouched :
        (ks : List SchemeKeys) (r : Reading)
        → is_untouched (read_schemes d ks r) ≡ (is_untouched r && all (silent_scheme d) ks)
    unfolding read_schemes
    read_schemes-untouched [] r = ground arith
    read_schemes-untouched (keys ∷ ks) r = ground (
      arith,
      read_schemes-untouched ks (read_enabled d keys (flag d keys.enable) r),
      read_enabled-untouched keys (flag d keys.enable) r,
    )

  unroutable_drops-is_nil :
      (keys : UnroutableKeys) (on : Option Bool) (host : Option Text)
      → text d keys.host ≡ host
      → flag d keys.enable ≡ on
      → is_nil (unroutable_drops d keys on) ≡ silent_unroutable d keys
  unfolding unroutable_drops unroutable_host
  unroutable_drops-is_nil keys none host t f =
      ground (arith, unreadable_flag-is_nil keys.enable none, f)
  unroutable_drops-is_nil keys (some false) host t f = ground (
    arith,
    unreadable_flag-is_nil keys.enable none,
    f,
    flag_is_unusable-some d keys.enable false f,
  )
  unroutable_drops-is_nil keys (some true) none t f =
      rw t (ground (arith, unreadable_text-is_nil keys.host none, f, t))
  unroutable_drops-is_nil keys (some true) (some host) t f = rw t (ground (arith, f, t))

  pub unroutable_schemes-is_nil :
      (ks : List UnroutableKeys) → is_nil (unroutable_schemes d ks) ≡ all (silent_unroutable d) ks
  unfolding unroutable_schemes
  unroutable_schemes-is_nil [] = refl
  unroutable_schemes-is_nil (keys ∷ ks) = ground (
    arith,
    is_nil-append (unroutable_drops d keys (flag d keys.enable)) (unroutable_schemes d ks),
    unroutable_drops-is_nil keys (flag d keys.enable) (text d keys.host) refl refl,
    unroutable_schemes-is_nil ks,
  )
