-- ===== src/Mode/Drops.antt =====
-- What `with_rejected` does to the lookups, and that `manual` recovers the drops of a map.
use proxy_watch.Bypass.Rules.{BypassRules}
use proxy_watch.Diagnostic.{RejectedValue}
use proxy_watch.Endpoint.{ProxyEndpoint, ProxyEntry, unusable, endpoint}
use proxy_watch.Mode.{
  ProxyMode, manual_mode, websocket_entry, endpoint_for, websocket_endpoint, mirror, mirror_one,
  with_rejected,
}
use proxy_watch.Mode.Lookup.{entry_for-prefer, websocket_entry-prefer}
use proxy_watch.Mode.Table.{Slots, get}
use proxy_watch.Prelude.{
  Bool, false, Option, none, some, List, [], ◌∷◌, ◌≡◌, refl, ◌⊎◌, inl, inr, arith, if◌then◌else◌,
  or_option, and_then, Bool-cases,
}
use proxy_watch.Scheme.{Scheme, scheme_eq}

abbrev names : Option Scheme → Scheme → Bool
names none s = false
names (some t) s = scheme_eq t s

-- The first drop that names a scheme.
abbrev pub first_drop : Scheme → List RejectedValue → Option ProxyEntry
first_drop s [] = none
first_drop s (v ∷ vs) = if names v.affected_scheme s then some (unusable v) else first_drop s vs

-- A slot of the mirrored map holds what stood there, and else the first drop that names it.
pub get-mirror :
    (vs : List RejectedValue) (m : Slots) (s : Scheme)
    → get (mirror vs m) s ≡ or_option (get m s) (first_drop s vs)
unfolding mirror
get-mirror [] m s = ground arith
get-mirror (v ∷ vs) m s = ground (arith, get-mirror vs (mirror_one v.affected_scheme v m) s)

first_drop-cases :
    (s : Scheme) (vs : List RejectedValue)
    → (first_drop s vs ≡ none) ⊎ ((v : RejectedValue) × (first_drop s vs ≡ some (unusable v)))
first_drop-cases s [] = inl refl
first_drop-cases s (v ∷ vs) = elim (Bool-cases (names v.affected_scheme s)) [
  | inl named ↦ inr (v, rw named)
  | inr other ↦ rw other (first_drop-cases s vs)
]

-- The endpoint that an entry holds.
abbrev held : Option ProxyEntry → Option ProxyEndpoint
held o = and_then o endpoint

module _ (vs : List RejectedValue) (m : Slots) (b : BypassRules) (old : List RejectedValue) where
  manual-endpoint_for :
      (s : Scheme)
      → endpoint_for s (with_rejected vs (manual_mode m b old))
        ≡ endpoint_for s (manual_mode m b old)
  unfolding endpoint_for with_rejected endpoint
  manual-endpoint_for s = ground (
    arith,
    entry_for-prefer m b old s,
    entry_for-prefer (mirror vs m) b vs s,
    get-mirror vs m s,
    get-mirror vs m Scheme.all,
    first_drop-cases s vs,
    first_drop-cases Scheme.all vs,
  )

  manual-websocket_endpoint :
      websocket_endpoint (with_rejected vs (manual_mode m b old))
      ≡ websocket_endpoint (manual_mode m b old)
  unfolding websocket_endpoint with_rejected endpoint
  manual-websocket_endpoint = ground (
    arith,
    websocket_entry-prefer m b old,
    websocket_entry-prefer (mirror vs m) b vs,
    get-mirror vs m Scheme.socks,
    get-mirror vs m Scheme.https,
    get-mirror vs m Scheme.http,
    get-mirror vs m Scheme.all,
    first_drop-cases Scheme.socks vs,
    first_drop-cases Scheme.https vs,
    first_drop-cases Scheme.http vs,
    first_drop-cases Scheme.all vs,
  )

-- Recording drops on a mode changes no endpoint that a lookup hands out, for any scheme and for
-- WebSocket requests.
pub endpoint-with_rejected :
    (vs : List RejectedValue) (mode : ProxyMode)
    → ((s : Scheme) → endpoint_for s (with_rejected vs mode) ≡ endpoint_for s mode)
      × (websocket_endpoint (with_rejected vs mode) ≡ websocket_endpoint mode)
unfolding with_rejected endpoint_for websocket_endpoint websocket_entry
endpoint-with_rejected vs (manual_mode m b old) =
    (λ s. manual-endpoint_for vs m b old s, manual-websocket_endpoint vs m b old)
endpoint-with_rejected vs _ = (λ s. refl, refl)
