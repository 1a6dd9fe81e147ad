-- ===== src/Watch/Run/Routes.antt =====
-- src/watch.rs: how the health of a subscription changes in a run.
use proxy_watch.Config.{ProxyConfigSource, source_eq}
use proxy_watch.Prelude.{
  subst, is_nil, ==-refl, Bool, true, false, not, ◌&&◌, List, [], ◌∷◌, ◌++◌, ◌≡◌, refl, sym, arith,
  is_some, if◌then◌else◌, any-append,
}
use proxy_watch.Watch.{Shared, merged_health, construction_health}
use proxy_watch.Watch.Health.{Equality, WatchHealth, contains_source, merge_degraded, is_fully_live}
use proxy_watch.Watch.Run.Worse.{IsWorse, IsWorse-refl, IsWorse-trans, Step-IsWorse}
use proxy_watch.Watch.Run.{Onward, here, onward, System}

contains-merge_degraded :
    (source : ProxyConfigSource) (degraded more : List ProxyConfigSource)
    → contains_source source degraded ≡ true
    → contains_source source (merge_degraded degraded more) ≡ true
contains-merge_degraded source degraded [] h = h
contains-merge_degraded source degraded (s ∷ more) h =
    contains-merge_degraded source
      (if contains_source s degraded then degraded else degraded ++ s ∷ []) more
      (kept (contains_source s degraded))
  where
    kept : (b : Bool) → contains_source source (if b then degraded else degraded ++ s ∷ []) ≡ true
    kept true = h
    kept false = ground (arith, h, any-append (source_eq source) degraded (s ∷ []))

merge_degraded-append :
    (degraded first more : List ProxyConfigSource)
    → merge_degraded degraded (first ++ more) ≡ merge_degraded (merge_degraded degraded first) more
merge_degraded-append degraded [] more = refl
merge_degraded-append degraded (s ∷ first) more =
    merge_degraded-append (if contains_source s degraded then degraded else degraded ++ s ∷ [])
      first more

source_eq_refl : (s : ProxyConfigSource) → source_eq s s ≡ true
source_eq_refl s = ==-refl _

none_degraded :
    (before after : List ProxyConfigSource)
    → ((source : ProxyConfigSource)
        → contains_source source before ≡ true
        → contains_source source after ≡ true)
    → is_nil after ≡ true
    → is_nil before ≡ true
none_degraded [] after keep h = refl
none_degraded (s ∷ before) [] keep h = cc (keep s (rw (source_eq_refl s) refl))
none_degraded (s ∷ before) (t ∷ after) keep h = cc h

-- `b` is the health of a subscription some time after `a`.
pub record IsLater (a b : WatchHealth) : Type 0 where
  pub degraded_stays :
      (source : ProxyConfigSource)
      → contains_source source a.degraded ≡ true
      → contains_source source b.degraded ≡ true
  pub live_before : b.has_live_notifications ≡ true → a.has_live_notifications ≡ true
  pub same_interval : b.poll_interval ≡ a.poll_interval
  pub stopped_stays : a.stopped ≡ true → b.stopped ≡ true

is_fully_live-IsLater :
    (a b : WatchHealth) → IsLater a b → is_fully_live b ≡ true → is_fully_live a ≡ true
unfolding is_fully_live
is_fully_live-IsLater a b later live =
    let none = none_degraded a.degraded b.degraded later.degraded_stays in
    ground (arith, live, none, later.live_before, later.stopped_stays)

live_stays :
    (before after lost still_lost : Bool)
    → after ≡ before
    → (lost ≡ true → still_lost ≡ true)
    → (after && not still_lost) ≡ true
    → (before && not lost) ≡ true
live_stays before after lost still_lost same keep h = ground (arith, same, keep, h)

IsWorse-IsLater : (a b : Shared) → IsWorse a b → IsLater (merged_health a) (merged_health b)
unfolding merged_health construction_health
IsWorse-IsLater a b worse =
    let (more, e) = worse.more_degraded in
    record {
      degraded_stays = λ source h.
          rw (worse.same_construction, e)
            (subst (λ l. contains_source source l ≡ true)
              (sym (merge_degraded-append _ a.state.runtime_degraded more))
              (contains-merge_degraded source _ more h));
      live_before = λ h. live_stays _ _ _ _ (rw worse.same_construction refl) worse.no_live h;
      same_interval = rw worse.same_construction refl;
      stopped_stays = worse.stopped;
    }

module _ ⦃equality : Equality⦄ where
  Onward-IsWorse :
      (s t : System) → Onward s t → is_some s.shared.construction ≡ true → IsWorse s.shared t.shared
  Onward-IsWorse s t here est = IsWorse-refl s.shared
  Onward-IsWorse s t (onward {t = u} run step) est =
      let before = Onward-IsWorse s u run est in
      IsWorse-trans s.shared u.shared t.shared before
        (Step-IsWorse u t step (cc (before.same_construction, est)))

  -- From the moment that a subscription is handed out, whatever the backend and the subscriber do,
  -- a degraded source stays degraded, live notifications that were lost do not come back, the
  -- interval of the polling stays, and a stop is final; so what is fully live was so all along.
  pub health-IsLater :
      (s t : System)
      → Onward s t
      → is_some s.shared.construction ≡ true
      → IsLater (merged_health s.shared) (merged_health t.shared)
        × (is_fully_live (merged_health t.shared) ≡ true
            → is_fully_live (merged_health s.shared) ≡ true)
  unfolding is_fully_live
  health-IsLater s t run est =
      let later = IsWorse-IsLater s.shared t.shared (Onward-IsWorse s t run est) in
      (later, λ live. is_fully_live-IsLater _ _ later live)
