-- ===== src/Watch/Health.antt =====
-- src/watch.rs: what of a subscription is live, and the configuration together with that.
use proxy_watch.Config.{ProxyConfig, ProxyConfigSource, Source, source_eq}
use proxy_watch.Mode.{ProxyMode}
use proxy_watch.Prelude.{
  ℕ, Bool, true, false, not, ◌&&◌, ◌||◌, Option, List, [], ◌∷◌, ◌++◌, any, if◌then◌else◌, is_nil,
  is_some,
}

-- The `PartialEq` that the compiler derives for `ProxyMode`.
pub record Equality : Type 0 where
  pub same_mode : ProxyMode → ProxyMode → Bool

module _ ⦃equality : Equality⦄ where
  abbrev same_sources : List Source → List Source → Bool
  same_sources [] [] = true
  same_sources [] (b ∷ bs) = false
  same_sources (a ∷ rest) [] = false
  same_sources (a ∷ rest) (b ∷ bs) =
      (source_eq a.0 b.0 && equality.same_mode a.1 b.1) && same_sources rest bs

  abbrev same_fallbacks : List ProxyConfigSource → List ProxyConfigSource → Bool
  same_fallbacks [] [] = true
  same_fallbacks [] (b ∷ bs) = false
  same_fallbacks (a ∷ rest) [] = false
  same_fallbacks (a ∷ rest) (b ∷ bs) = source_eq a b && same_fallbacks rest bs

  -- `PartialEq` of `ProxyConfig`: not the time of the capture.
  unfoldable pub same_config : ProxyConfig → ProxyConfig → Bool
  same_config a b =
      equality.same_mode a.effective b.effective
      && (same_sources a.sources b.sources && same_fallbacks a.fallbacks b.fallbacks)

pub record BackendHealth : Type 0 where
  pub degraded : List ProxyConfigSource
  pub has_live_notifications : Bool

pub record WatchHealth : Type 0 where
  pub degraded : List ProxyConfigSource
  pub has_live_notifications : Bool
  pub poll_interval : Option ℕ
  pub stopped : Bool

pub record WatchState : Type 0 where
  pub config : ProxyConfig
  pub health : WatchHealth

unfoldable pub is_fully_live : WatchHealth → Bool
is_fully_live h = not h.stopped && (is_nil h.degraded && h.has_live_notifications)

unfoldable pub is_frozen : WatchHealth → Bool
is_frozen h = h.stopped || (not h.has_live_notifications && not (is_some h.poll_interval))

abbrev pub contains_source : ProxyConfigSource → List ProxyConfigSource → Bool
contains_source source = any (source_eq source)

abbrev pub merge_degraded : List ProxyConfigSource → List ProxyConfigSource → List ProxyConfigSource
merge_degraded degraded [] = degraded
merge_degraded degraded (source ∷ sources) =
    merge_degraded (if contains_source source degraded then degraded else degraded ++ source ∷ [])
      sources

abbrev pub merge_runtime_health : WatchHealth → List ProxyConfigSource → Bool → Bool → WatchHealth
merge_runtime_health construction runtime_degraded no_live stopped = record {
  degraded = merge_degraded construction.degraded runtime_degraded;
  has_live_notifications = construction.has_live_notifications && not no_live;
  poll_interval = construction.poll_interval;
  stopped = stopped;
}
