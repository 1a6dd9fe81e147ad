-- ===== src/Watch.antt =====
-- src/watch.rs: the state that the backend thread and the subscriber share, with its operations.
-- A duration is a number of nanoseconds, a waker a number that stands for its task.
pub mod Options
pub mod Health
pub mod Queue
pub mod Polls
pub mod Run
use proxy_watch.Config.{ProxyConfig, ProxyConfigSource}
use proxy_watch.Error.{Error, io}
use proxy_watch.Prelude.{
  ℕ, suc, ◌+◌, Bool, true, false, not, ◌&&◌, ◌||◌, Option, none, some, List, [], ◌∷◌, ◌++◌, ltb,
  if◌then◌else◌, is_nil, is_some, length, or_option, map_option, unwrap_or,
}
use proxy_watch.Text.{lit}
use Queue.{Queued, snapshot, failure, renew, trim_to_capacity, replace_failure}
use Health.{
  BackendHealth, WatchHealth, WatchState, contains_source, merge_runtime_health, Equality,
  same_config,
}

abbrev pub Waker : Type 0
Waker = ℕ

pub record State : Type 0 where
  pub current : ProxyConfig
  pub queue : List Queued
  pub dropped : ℕ
  pub waker : Option Waker
  pub closed : Bool
  pub dirty : Bool
  pub runtime_degraded : List ProxyConfigSource
  pub runtime_no_live_notifications : Bool

-- `construction` is written once, after the backend thread was started.
pub record Shared : Type 0 where
  pub state : State
  pub construction : Option WatchHealth

pub data WatchEvent : Type 0 where
  snapshot_event : WatchState → WatchEvent
  error_event : Error → WatchState → WatchEvent

unfoldable pub event_state : WatchEvent → WatchState
event_state (snapshot_event s) = s
event_state (error_event e s) = s

abbrev pub initial_state : ProxyConfig → State
initial_state initial = record {
  current = initial;
  queue = snapshot ∷ [];
  dropped = 0;
  waker = none;
  closed = false;
  dirty = false;
  runtime_degraded = [];
  runtime_no_live_notifications = false;
}

unfoldable pub new : ProxyConfig → Shared
new initial = record { state = initial_state initial; construction = none }

abbrev not_established : WatchHealth
not_established = record {
  degraded = [];
  has_live_notifications = false;
  poll_interval = none;
  stopped = false;
}

-- The end of `ProxyWatcher::start`, with `set_construction_health`.
unfoldable pub establish : BackendHealth → Option ℕ → Shared → Shared
establish backend interval sh = record sh {
  construction = or_option sh.construction (
      some (record {
        degraded = backend.degraded;
        has_live_notifications = backend.has_live_notifications;
        poll_interval = interval;
        stopped = false;
      }));
}

unfoldable pub construction_health : Shared → WatchHealth
construction_health sh = unwrap_or sh.construction not_established

unfoldable pub merged_health : Shared → WatchHealth
unfolding construction_health
merged_health sh =
    merge_runtime_health (construction_health sh) sh.state.runtime_degraded
      sh.state.runtime_no_live_notifications sh.state.closed

unfoldable pub stamp : Shared → WatchState
unfolding merged_health
stamp sh = record { config = sh.state.current; health = merged_health sh }

-- A change of the state, and the waker that it took out and woke.
abbrev pub Woken : Type 0
Woken = Shared × Option Waker

-- Store a state, take its waker out and wake it.
abbrev pub wake : Shared → State → Woken
wake sh st = (record sh { state = record st { waker = none } }, st.waker)

abbrev is_degraded_at_start : ProxyConfigSource → Option WatchHealth → Bool
is_degraded_at_start source none = false
is_degraded_at_start source (some h) = contains_source source h.degraded

abbrev pub degraded_by : ProxyConfigSource → State → State
degraded_by source st = record st {
  runtime_degraded = st.runtime_degraded ++ source ∷ [];
  dirty = true;
}

unfoldable pub degrade : ProxyConfigSource → Shared → Woken
degrade source sh =
    if contains_source source sh.state.runtime_degraded
      || is_degraded_at_start source sh.construction
    then (sh, none)
    else wake sh (degraded_by source sh.state)

abbrev started_without_live : Option WatchHealth → Bool
started_without_live none = false
started_without_live (some h) = not h.has_live_notifications

abbrev pub without_live : State → State
without_live st = record st { runtime_no_live_notifications = true; dirty = true }

unfoldable pub mark_no_live_notifications : Shared → Woken
mark_no_live_notifications sh =
    if sh.state.runtime_no_live_notifications || started_without_live sh.construction
    then (sh, none)
    else wake sh (without_live sh.state)

-- The rest of `emit`, for a configuration that is not the current one.
unfoldable pub replace_current : ProxyConfig → Shared → Woken
unfolding renew trim_to_capacity
replace_current config sh =
    let kept = trim_to_capacity (renew sh.state.queue) sh.state.dropped in
    wake sh (record sh.state { current = config; queue = kept.0; dropped = kept.1; dirty = false })

unfoldable pub emit : ⦃equality : Equality⦄ → ProxyConfig → Shared → Woken
unfolding replace_current same_config
emit config sh =
    if same_config sh.state.current config then (sh, none) else replace_current config sh

unfoldable pub fail : Error → Shared → Woken
unfolding replace_failure
fail e sh = elim (replace_failure e sh.state.queue) [
  | some queue ↦ (record sh { state = record sh.state { queue = queue } }, none)
  | none ↦ wake sh (record sh.state { queue = sh.state.queue ++ failure e ∷ [] })
]

abbrev pub closed_state : State → State
closed_state st = record st { closed = true; dirty = true }

unfoldable pub close : Shared → Woken
close sh = if sh.state.closed then (sh, none) else wake sh (closed_state sh.state)

pub data Poll : Type 0 where
  pending : Poll
  ready : Option WatchEvent → Poll

-- Deliver the front of the queue, `rest` being what stays in it.
pub deliver : Queued → List Queued → Shared → Poll × Shared
unfolding stamp
deliver item rest sh =
    let dropped = if is_nil rest then 0 else sh.state.dropped in
    elim item [
      | snapshot ↦
          let t = record sh {
            state = record sh.state { queue = rest; dropped = dropped; dirty = false };
          } in
          (ready (some (snapshot_event (stamp t))), t)
      | failure e ↦
          let t = record sh { state = record sh.state { queue = rest; dropped = dropped } } in
          (ready (some (error_event e (stamp t))), t)
    ]

-- The rest of `poll_next`, for an empty queue.
poll_empty : Waker → Shared → Poll × Shared
unfolding stamp
poll_empty waker sh =
    if sh.state.dirty
    then (let t = record sh { state = record sh.state { dirty = false } } in
        (ready (some (snapshot_event (stamp t))), t))
    else if sh.state.closed
    then (ready none, sh)
    else (pending, record sh { state = record sh.state { waker = some waker } })

unfoldable pub poll_next : Waker → Shared → Poll × Shared
unfolding deliver poll_empty
poll_next waker sh = elim sh.state.queue [
  | [] ↦ poll_empty waker sh
  | item ∷ rest ↦ deliver item rest sh
]

-- A second change after a first: what either woke.
infixl 5 ◌then_also◌
abbrev ◌then_also◌ : Woken → (Shared → Woken) → Woken
first then_also change = let next = change first.0 in (next.0, or_option first.1 next.1)

abbrev pub panicked : Error
panicked = io (lit "running the proxy-watch backend thread") (lit "the watcher thread panicked")

-- `Drop` of `ThreadGuard`: a thread that panics leaves a failure behind.
unfoldable pub drop_guard : Bool → Shared → Woken
unfolding mark_no_live_notifications fail close
drop_guard false sh = close sh
drop_guard true sh = mark_no_live_notifications sh then_also fail panicked then_also close
