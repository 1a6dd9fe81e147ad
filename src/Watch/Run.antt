-- ===== src/Watch/Run.antt =====
-- src/watch.rs: a subscription as a run of steps: the backend thread acts, the subscriber polls.
-- `ProxyWatcher::start` hands the subscription out after the health was established, so no poll
-- comes before that, while the thread may act.
pub mod Sound
pub mod Invariant
pub mod Waiting
pub mod Wakeups
pub mod Draining
pub mod Worse
pub mod Routes
use proxy_watch.Config.{ProxyConfig, ProxyConfigSource}
use proxy_watch.Error.{Error}
use proxy_watch.Prelude.{Bool, true, ℕ, Option, none, some, ◌≡◌, is_some}
use proxy_watch.Watch
use proxy_watch.Watch.{
  Shared, WatchEvent, Poll, pending, ready, Woken, Waker, degrade, mark_no_live_notifications, emit,
  fail, close, drop_guard, establish, poll_next, event_state,
}
use proxy_watch.Watch.Health.{BackendHealth, WatchState, Equality}

-- What the backend thread does.
pub data Action : Type 0 where
  emitting : ProxyConfig → Action
  failing : Error → Action
  degrading : ProxyConfigSource → Action
  losing_live_notifications closing : Action
  dropping_guard : Bool → Action

unfoldable pub act : ⦃equality : Equality⦄ → Action → Shared → Woken
act (emitting config) = emit config
act (failing e) = fail e
act (degrading source) = degrade source
act losing_live_notifications = mark_no_live_notifications
act closing = close
act (dropping_guard panicking) = drop_guard panicking

-- The shared state, and what the subscriber was told last.
pub record System : Type 0 where
  pub shared : Shared
  pub seen : Option WatchState

abbrev pub seen_after : Poll → Option WatchState → Option WatchState
seen_after (ready (some event)) seen = some (event_state event)
seen_after (ready none) seen = seen
seen_after pending seen = seen

abbrev pub acted : ⦃equality : Equality⦄ → Action → System → System
acted a s = record s { shared = (act a s.shared).0 }

abbrev pub polled : Waker → System → System
polled waker s =
    let next = poll_next waker s.shared in
    record { shared = next.1; seen = seen_after next.0 s.seen }

pub data Step ⦃equality : Equality⦄ (s : System) : System → Type 0 where
  backend : (a : Action) → Step s (acted a s)
  constructor_ends :
      (health : BackendHealth) (interval : Option ℕ)
      → s.shared.construction ≡ none
      → Step s (record s { shared = establish health interval s.shared })
  subscriber : (waker : Waker) → is_some s.shared.construction ≡ true → Step s (polled waker s)

abbrev pub start : ProxyConfig → System
start initial = record { shared = Watch.new initial; seen = none }

pub data Reach ⦃equality : Equality⦄ (initial : ProxyConfig) : System → Type 0 where
  begin : Reach initial (start initial)
  later : {s t : System} → Reach initial s → Step s t → Reach initial t

-- What a run goes on to from a state.
pub data Onward ⦃equality : Equality⦄ (s : System) : System → Type 0 where
  here : Onward s s
  onward : {t u : System} → Onward s t → Step t u → Onward s u
