-- ===== src/Watch/Run/Wakeups.antt =====
-- src/watch.rs: the backend wakes the subscriber that waits whenever it has something for it.
use proxy_watch.Config.{ProxyConfig}
use proxy_watch.Error.{Error}
use proxy_watch.Prelude.{
  Bool, true, false, some, none, [], ◌≡◌, ◌⊎◌, inl, inr, refl, ap, if◌then◌else◌,
}
use proxy_watch.Watch.{
  Shared, pending, Waker, Woken, wake, poll_next, emit, replace_current, fail, degrade,
  mark_no_live_notifications, close, drop_guard, panicked,
}
use proxy_watch.Watch.Health.{Equality}
use proxy_watch.Watch.Polls.{poll_next-pending}
use proxy_watch.Watch.Queue.{replace_failure}
use proxy_watch.Watch.Run.{
  Action, act, System, Reach, emitting, failing, degrading, losing_live_notifications, closing,
  dropping_guard,
}
use proxy_watch.Watch.Run.Invariant.{Reach-IsSound}

-- A change that wakes whom it finds, or does nothing.
abbrev Notifies : Shared → Woken → Type 0
Notifies sh r = (r ≡ (sh, none)) ⊎ (r.1 ≡ sh.state.waker)

unless-Notifies :
    (sh : Shared) (b : Bool) (changed : Woken)
    → changed.1 ≡ sh.state.waker
    → Notifies sh (if b then (sh, none) else changed)
unless-Notifies sh true changed h = inl refl
unless-Notifies sh false changed h = inr h

fail-wakes : (e : Error) (sh : Shared) → sh.state.queue ≡ [] → (fail e sh).1 ≡ sh.state.waker
unfolding fail replace_failure
fail-wakes e sh q = rw (fail, q) refl

mark_no_live_notifications-Notifies : (sh : Shared) → Notifies sh (mark_no_live_notifications sh)
unfolding mark_no_live_notifications
mark_no_live_notifications-Notifies sh = unless-Notifies sh _ (wake sh _) refl

close-Notifies : (sh : Shared) → Notifies sh (close sh)
unfolding close
close-Notifies sh = unless-Notifies sh _ (wake sh _) refl

drop_guard-Notifies :
    (panicking : Bool) (sh : Shared) (w : Waker)
    → sh.state.queue ≡ []
    → sh.state.waker ≡ some w
    → Notifies sh (drop_guard panicking sh)
unfolding drop_guard
drop_guard-Notifies false sh w q h = close-Notifies sh
drop_guard-Notifies true sh w q h = elim (mark_no_live_notifications-Notifies sh) [
  | inl m ↦ inr (rw (m, fail-wakes panicked sh q, h) refl)
  | inr m ↦ inr (rw (m, h) refl)
]

module _ ⦃equality : Equality⦄ where
  act-Notifies :
      (a : Action) (sh : Shared) (w : Waker)
      → sh.state.queue ≡ []
      → sh.state.waker ≡ some w
      → Notifies sh (act a sh)
  unfolding act emit replace_current degrade
  act-Notifies (emitting config) sh w q h = unless-Notifies sh _ (replace_current config sh) refl
  act-Notifies (failing e) sh w q h = inr (fail-wakes e sh q)
  act-Notifies (degrading source) sh w q h = unless-Notifies sh _ (wake sh _) refl
  act-Notifies losing_live_notifications sh w q h = mark_no_live_notifications-Notifies sh
  act-Notifies closing sh w q h = close-Notifies sh
  act-Notifies (dropping_guard panicking) sh w q h = drop_guard-Notifies panicking sh w q h

  -- While a waker is registered, at any point of a run, whatever the backend does wakes it, or
  -- changes nothing at all and leaves a subscriber that polls again waiting: no wakeup is lost.
  pub act-wakes :
      (initial : ProxyConfig) (s : System) (w : Waker) (a : Action)
      → Reach initial s
      → s.shared.state.waker ≡ some w
      → ((act a s.shared).1 ≡ some w)
        ⊎ ((act a s.shared ≡ (s.shared, none)) × ((poll_next w s.shared).0 ≡ pending))
  act-wakes initial s w a reach h =
      let (q, d, c) = (Reach-IsSound initial s reach).quiet w h in
      elim (act-Notifies a s.shared w q h) [
        | inl same ↦ inr (same, ap (λ n. n.0) (poll_next-pending w s.shared q d c))
        | inr woken ↦ inl (cc (woken, h))
      ]
