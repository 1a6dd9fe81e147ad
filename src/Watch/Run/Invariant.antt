-- ===== src/Watch/Run/Invariant.antt =====
-- src/watch.rs: every reachable state of a subscription is sound.
use proxy_watch.Config.{ProxyConfig}
use proxy_watch.Prelude.{
  ℕ, Bool, true, false, Option, none, some, List, [], ◌∷◌, ◌≡◌, inl, inr, refl, subst, Option-cases,
  is_some,
}
use proxy_watch.Watch.{
  Shared, Waker, establish, poll_next, deliver, event_state, stamp, merged_health,
  construction_health,
}
use proxy_watch.Watch.Health.{BackendHealth, WatchState, Equality}
use proxy_watch.Watch.Polls.{poll_next-deliver, poll_next-dirty, poll_next-end, poll_next-pending}
use proxy_watch.Watch.Queue.{Queued, snapshot, failure}
use proxy_watch.Watch.Queue.Tidy.{IsTidy, popped-IsTidy}
use proxy_watch.Watch.Run.{
  System, Step, Reach, begin, later, backend, constructor_ends, subscriber, seen_after,
}
use proxy_watch.Watch.Run.Sound.{IsSound, new-IsSound, act-IsSound}

establish-IsSound :
    (health : BackendHealth) (interval : Option ℕ) (sh : Shared) (seen : Option WatchState)
    → sh.construction ≡ none
    → IsSound sh seen
    → IsSound (establish health interval sh) seen
unfolding establish
establish-IsSound health interval sh seen unset sound =
    let has = sound.unpolled unset in
    record {
      tidy = sound.tidy;
      quiet = sound.quiet;
      fresh = λ h d. absurd (cc (has, h));
      unpolled = λ h. has;
    }

-- After an event the subscriber has seen the present state.
told-IsSound :
    (t : Shared)
    → IsTidy t.state.queue
    → t.state.waker ≡ none
    → is_some t.construction ≡ true
    → IsSound t (some (stamp t))
told-IsSound t tidy awake est = record {
  tidy = tidy;
  quiet = λ w h. absurd (cc (awake, h));
  fresh = λ h d. refl;
  unpolled = λ h. absurd (cc (h, est));
}

module _ (sh : Shared) (seen : Option WatchState) (sound : IsSound sh seen) where
  awake-queue :
      (item : Queued) (rest : List Queued) → sh.state.queue ≡ item ∷ rest → sh.state.waker ≡ none
  awake-queue item rest q = elim (Option-cases sh.state.waker) [
    | inl h ↦ h
    | inr (w, h) ↦ absurd (cc ((sound.quiet w h).0, q))
  ]

  awake-dirty : sh.state.dirty ≡ true → sh.state.waker ≡ none
  awake-dirty d = elim (Option-cases sh.state.waker) [
    | inl h ↦ h
    | inr (w, h) ↦ absurd (cc ((sound.quiet w h).1, d))
  ]

  module _ (est : is_some sh.construction ≡ true) where
    deliver-IsSound :
        (item : Queued) (rest : List Queued)
        → sh.state.queue ≡ item ∷ rest
        → IsSound (deliver item rest sh).1 (seen_after (deliver item rest sh).0 seen)
    unfolding deliver event_state
    deliver-IsSound snapshot rest q =
        told-IsSound _ (popped-IsTidy snapshot rest (subst IsTidy q sound.tidy))
          (awake-queue snapshot rest q) est
    deliver-IsSound (failure e) rest q =
        told-IsSound _ (popped-IsTidy (failure e) rest (subst IsTidy q sound.tidy))
          (awake-queue (failure e) rest q) est

    poll_next-IsSound :
        (waker : Waker) (queue : List Queued) (dirty closed : Bool)
        → sh.state.queue ≡ queue
        → sh.state.dirty ≡ dirty
        → sh.state.closed ≡ closed
        → IsSound (poll_next waker sh).1 (seen_after (poll_next waker sh).0 seen)
    unfolding stamp merged_health construction_health event_state
    poll_next-IsSound waker (item ∷ rest) dirty closed q d c =
        rw (poll_next-deliver waker sh item rest q) (deliver-IsSound item rest q)
    poll_next-IsSound waker [] true closed q d c =
        rw (poll_next-dirty waker sh q d) (told-IsSound _ sound.tidy (awake-dirty d) est)
    poll_next-IsSound waker [] false true q d c = rw (poll_next-end waker sh q d c) sound
    poll_next-IsSound waker [] false false q d c = rw (poll_next-pending waker sh q d c) (record {
      tidy = sound.tidy;
      quiet = λ w h. (q, d, c);
      fresh = sound.fresh;
      unpolled = sound.unpolled;
    })

module _ ⦃equality : Equality⦄ where
  Step-IsSound : (s t : System) → Step s t → IsSound s.shared s.seen → IsSound t.shared t.seen
  Step-IsSound s t (backend a) sound = act-IsSound s.seen a s.shared sound
  Step-IsSound s t (constructor_ends health interval unset) sound =
      establish-IsSound health interval s.shared s.seen unset sound
  Step-IsSound s t (subscriber waker est) sound =
      poll_next-IsSound s.shared s.seen sound est waker _ _ _ refl refl refl

  pub Reach-IsSound :
      (initial : ProxyConfig) (s : System) → Reach initial s → IsSound s.shared s.seen
  Reach-IsSound initial s begin = new-IsSound initial
  Reach-IsSound initial t (later {s} reach step) =
      Step-IsSound s t step (Reach-IsSound initial s reach)
