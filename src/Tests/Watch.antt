-- ===== src/Tests/Watch.antt =====
-- A subscription on small inputs.
use proxy_watch.Config.{gsettings, registry}
use proxy_watch.Error.{unsupported}
use proxy_watch.Mode.{is_direct}
use proxy_watch.Prelude.{
  ◌≤◌, true, ◌&&◌, some, none, List, [], ◌∷◌, ◌++◌, ◌≡◌, ◌⊎◌, refl, arith, length, map,
  if◌then◌else◌,
}
use proxy_watch.Tests.Data.{desktop_config}
use proxy_watch.Watch
use proxy_watch.Watch.{
  Shared, Poll, ready, pending, snapshot_event, error_event, event_state, poll_next, establish,
  stamp, merged_health, construction_health, emit, fail, close,
}
use proxy_watch.Watch.Health.{Equality, BackendHealth, WatchState, is_fully_live, same_config}
use proxy_watch.Watch.Queue.Tidy.{snapshots, trailing}
use proxy_watch.Watch.Run.{
  System, Reach, begin, later, here, onward, backend, constructor_ends, subscriber, start, polled,
  acted, act, failing, degrading,
}
use proxy_watch.Watch.Run.Draining.{
  collect, collect-closed, event_for, owed, poll_times, emit-delivered,
}
use proxy_watch.Watch.Run.Routes.{IsLater, health-IsLater}
use proxy_watch.Watch.Run.Waiting.{poll_next-no_event, queue-bounds}
use proxy_watch.Watch.Run.Wakeups.{act-wakes}

-- Modes are the same where both are direct.
instance abbrev toy_equality : Equality
toy_equality = record { same_mode = λ a b. is_direct a && is_direct b }

abbrev live_backend : BackendHealth
live_backend = record { degraded = registry ∷ []; has_live_notifications = true }

abbrev handed_out : System
handed_out = record (start desktop_config) {
  shared = establish live_backend none (Watch.new desktop_config);
}

handed_out-Reach : Reach desktop_config handed_out
unfolding Watch.new establish
handed_out-Reach = later begin (constructor_ends live_backend none refl)

abbrev waiting_system : System
waiting_system = polled 7 (polled 7 handed_out)

waiting-Reach : Reach desktop_config waiting_system
unfolding Watch.new establish poll_next
waiting-Reach = later (later handed_out-Reach (subscriber 7 refl)) (subscriber 7 refl)

poll_next-no_event_example :
    (waiting_system.seen ≡ some (stamp waiting_system.shared))
    × ((poll_next 7 waiting_system.shared).0
        ≡ (if (stamp waiting_system.shared).health.stopped then ready none else pending))
unfolding Watch.new establish poll_next
poll_next-no_event_example = poll_next-no_event desktop_config waiting_system 7 waiting-Reach refl

queue-bounds_example :
    (length handed_out.shared.state.queue ≤ 1025)
    × (snapshots handed_out.shared.state.queue ≤ 2)
    × (trailing handed_out.shared.state.queue ≤ 1)
queue-bounds_example = queue-bounds desktop_config handed_out handed_out-Reach

act-wakes_example :
    ((act (failing unsupported) waiting_system.shared).1 ≡ some 7)
    ⊎ ((act (failing unsupported) waiting_system.shared ≡ (waiting_system.shared, none))
        × ((poll_next 7 waiting_system.shared).0 ≡ pending))
unfolding Watch.new establish poll_next
act-wakes_example =
    act-wakes desktop_config waiting_system 7 (failing unsupported) waiting-Reach refl

abbrev closed_shared : Shared
closed_shared = (close (fail unsupported handed_out.shared).0).0

collect-closed_example :
    collect 4 7 closed_shared
    ≡ some (
        map (event_for (stamp closed_shared)) closed_shared.state.queue
        ++ owed closed_shared.state.dirty closed_shared.state.queue (stamp closed_shared))
unfolding Watch.new establish fail close
collect-closed_example = collect-closed closed_shared 7 4 refl (omega arith)

emit-delivered_example :
    let t = (emit desktop_config handed_out.shared).0 in
    ((front : List Poll) × (st : WatchState) × (st.config ≡ desktop_config)
      × ((poll_times (length t.state.queue) 7 t).0
          ≡ front ++ ready (some (snapshot_event st)) ∷ []))
    × (length t.state.queue ≤ 1024)
unfolding Watch.new establish same_config is_direct
emit-delivered_example = emit-delivered desktop_config handed_out.shared 7 refl

abbrev degraded_system : System
degraded_system = acted (degrading gsettings) waiting_system

health-IsLater_example :
    IsLater (merged_health waiting_system.shared) (merged_health degraded_system.shared)
    × (is_fully_live (merged_health degraded_system.shared) ≡ true
        → is_fully_live (merged_health waiting_system.shared) ≡ true)
unfolding Watch.new establish poll_next
health-IsLater_example =
    health-IsLater waiting_system degraded_system (onward here (backend (degrading gsettings))) refl
