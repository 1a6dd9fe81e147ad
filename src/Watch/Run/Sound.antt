-- ===== src/Watch/Run/Sound.antt =====
-- src/watch.rs: what holds of a subscription at every point of a run, and that the backend keeps it.
use proxy_watch.Config.{ProxyConfig, ProxyConfigSource}
use proxy_watch.Error.{Error}
use proxy_watch.Prelude.{
  Bool, true, false, Option, none, some, List, [], ◌∷◌, ◌++◌, ◌≡◌, inl, inr, refl, sym, subst,
  arith, if◌then◌else◌, Option-cases, is_nil-concat,
}
use proxy_watch.Watch.{
  State, Shared, WatchEvent, Poll, pending, ready, Woken, Waker, wake, degrade,
  mark_no_live_notifications, emit, replace_current, fail, degraded_by, without_live, closed_state,
  close, drop_guard, panicked, establish, poll_next, poll_empty, deliver, event_state, stamp,
  merged_health, construction_health,
}
use proxy_watch.Watch.Health.{WatchState, Equality}
use proxy_watch.Watch.Queue.{Queued, failure, replace_failure}
use proxy_watch.Watch.Queue.Failures.{
  replace_failure-some, replace_failure-none, pushed-IsTidy, replaced-IsTidy,
}
use proxy_watch.Watch.Queue.Renewal.{renew-IsTidy, renew-has_snapshot}
use proxy_watch.Watch.Queue.Tidy.{IsTidy, has_snapshot, has_snapshot-failure}
use proxy_watch.Watch.Run.{
  Action, act, emitting, failing, degrading, losing_live_notifications, closing, dropping_guard,
}

pub record IsSound (sh : Shared) (seen : Option WatchState) : Type 0 where
  pub tidy : IsTidy sh.state.queue
  -- A waker is registered only while there is nothing to deliver.
  pub quiet :
      (w : Waker)
      → sh.state.waker ≡ some w
      → (sh.state.queue ≡ []) × (sh.state.dirty ≡ false) × (sh.state.closed ≡ false)
  -- A subscriber that is owed no snapshot has seen the present state.
  pub fresh : has_snapshot sh.state.queue ≡ false → sh.state.dirty ≡ false → seen ≡ some (stamp sh)
  pub unpolled : sh.construction ≡ none → has_snapshot sh.state.queue ≡ true

pub new-IsSound : (initial : ProxyConfig) → IsSound (proxy_watch.Watch.new initial) none
unfolding proxy_watch.Watch.new
new-IsSound initial = record {
  tidy = record { few = omega arith; one_failure = omega arith; short = omega arith };
  quiet = λ w h. absurd (cc h);
  fresh = λ h d. cc h;
  unpolled = λ h. refl;
}

module _ (seen : Option WatchState) where
  awake-IsSound :
      (t : Shared)
      → t.state.waker ≡ none
      → IsTidy t.state.queue
      → (has_snapshot t.state.queue ≡ false → t.state.dirty ≡ false → seen ≡ some (stamp t))
      → (t.construction ≡ none → has_snapshot t.state.queue ≡ true)
      → IsSound t seen
  awake-IsSound t awake tidy fresh unpolled = record {
    tidy = tidy;
    quiet = λ w h. absurd (cc (awake, h));
    fresh = fresh;
    unpolled = unpolled;
  }

  unless-IsSound :
      (b : Bool) (kept changed : Woken)
      → IsSound kept.0 seen
      → IsSound changed.0 seen
      → IsSound (if b then kept else changed).0 seen
  unless-IsSound true kept changed k c = k
  unless-IsSound false kept changed k c = c

  module _ (sh : Shared) (sound : IsSound sh seen) where
    replace_current-IsSound : (config : ProxyConfig) → IsSound (replace_current config sh).0 seen
    unfolding replace_current
    replace_current-IsSound config =
        let has = renew-has_snapshot sh.state.queue sh.state.dropped in
        awake-IsSound (replace_current config sh).0 refl
          (renew-IsTidy sh.state.queue sh.state.dropped sound.tidy) (λ h d. absurd (cc (has, h)))
          (λ h. has)

    -- A change that leaves the queue alone and owes a snapshot, or no change.
    noticed-IsSound :
        (b : Bool) (st : State)
        → st.dirty ≡ true
        → st.queue ≡ sh.state.queue
        → IsSound (if b then (sh, none) else wake sh st).0 seen
    noticed-IsSound true st dirty queue = sound
    noticed-IsSound false st dirty queue =
        awake-IsSound (wake sh st).0 refl (subst IsTidy (sym queue) sound.tidy)
          (λ h d. absurd (cc (dirty, d))) (λ h. rw queue (sound.unpolled h))

    emit-IsSound : ⦃equality : Equality⦄ → (config : ProxyConfig) → IsSound (emit config sh).0 seen
    unfolding emit
    emit-IsSound config = unless-IsSound _ (sh, none) _ sound (replace_current-IsSound config)

    degrade-IsSound : (source : ProxyConfigSource) → IsSound (degrade source sh).0 seen
    unfolding degrade
    degrade-IsSound source = noticed-IsSound _ (degraded_by source sh.state) refl refl

    mark_no_live_notifications-IsSound : IsSound (mark_no_live_notifications sh).0 seen
    unfolding mark_no_live_notifications
    mark_no_live_notifications-IsSound = noticed-IsSound _ (without_live sh.state) refl refl

    close-IsSound : IsSound (close sh).0 seen
    unfolding close
    close-IsSound = noticed-IsSound sh.state.closed (closed_state sh.state) refl refl

    pushed-IsSound :
        (e : Error)
        → replace_failure e sh.state.queue ≡ none
        → IsSound (wake sh (record sh.state { queue = sh.state.queue ++ failure e ∷ [] })).0 seen
    unfolding stamp merged_health construction_health
    pushed-IsSound e h =
        let has = has_snapshot-failure sh.state.queue e in
        awake-IsSound _ refl
          (pushed-IsTidy sh.state.queue e sound.tidy (replace_failure-none e sh.state.queue h))
          (λ x d. sound.fresh (cc (has, x)) d) (λ c. cc (has, sound.unpolled c))

    replaced-IsSound :
        (e : Error) (queue : List Queued)
        → replace_failure e sh.state.queue ≡ some queue
        → IsSound (record sh { state = record sh.state { queue = queue } }) seen
    unfolding stamp merged_health construction_health
    replaced-IsSound e queue h =
        let (before, last, was, is) = replace_failure-some e sh.state.queue queue h in
        let has : has_snapshot queue ≡ has_snapshot sh.state.queue =
          cc (was, is, has_snapshot-failure before e, has_snapshot-failure before last) in
        record {
          tidy = rw is (replaced-IsTidy before last e (subst IsTidy was sound.tidy));
          quiet =
              λ w r. absurd (cc ((sound.quiet w r).0, was, is_nil-concat before (failure last)));
          fresh = λ x d. sound.fresh (cc (has, x)) d;
          unpolled = λ c. cc (has, sound.unpolled c);
        }

    fail-IsSound : (e : Error) → IsSound (fail e sh).0 seen
    unfolding fail
    fail-IsSound e = elim (Option-cases (replace_failure e sh.state.queue)) [
      | inl h ↦ rw (fail, h) (pushed-IsSound e h)
      | inr (queue, h) ↦ rw (fail, h) (replaced-IsSound e queue h)
    ]

  drop_guard-IsSound :
      (panicking : Bool) (sh : Shared) → IsSound sh seen → IsSound (drop_guard panicking sh).0 seen
  unfolding drop_guard
  drop_guard-IsSound false sh sound = close-IsSound sh sound
  drop_guard-IsSound true sh sound =
      close-IsSound _ (fail-IsSound _ (mark_no_live_notifications-IsSound sh sound) panicked)

  pub act-IsSound :
      ⦃equality : Equality⦄
      → (a : Action) (sh : Shared) → IsSound sh seen
      → IsSound (act a sh).0 seen
  unfolding act
  act-IsSound (emitting config) sh sound = emit-IsSound sh sound config
  act-IsSound (failing e) sh sound = fail-IsSound sh sound e
  act-IsSound (degrading source) sh sound = degrade-IsSound sh sound source
  act-IsSound losing_live_notifications sh sound = mark_no_live_notifications-IsSound sh sound
  act-IsSound closing sh sound = close-IsSound sh sound
  act-IsSound (dropping_guard panicking) sh sound = drop_guard-IsSound panicking sh sound
