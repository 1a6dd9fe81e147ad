-- ===== src/Watch/Run/Waiting.antt =====
-- src/watch.rs: what a subscriber that gets no event knows, and the size of the queue.
use proxy_watch.Config.{ProxyConfig}
use proxy_watch.Prelude.{
  ◌≤◌, Bool, true, false, some, none, List, [], ◌∷◌, ◌≡◌, refl, ap, arith, length, if◌then◌else◌,
  ◌+◌,
}
use proxy_watch.Watch.{
  Shared, Poll, ready, pending, Waker, poll_next, deliver, stamp, merged_health,
}
use proxy_watch.Watch.Health.{Equality}
use proxy_watch.Watch.Polls.{poll_next-deliver, poll_next-dirty, poll_next-end, poll_next-pending}
use proxy_watch.Watch.Queue.{Queued, snapshot, failure}
use proxy_watch.Watch.Queue.Tidy.{snapshots, behind_front, trailing}
use proxy_watch.Watch.Run.{System, Reach}
use proxy_watch.Watch.Run.Invariant.{Reach-IsSound}

abbrev pub gives_event : Poll → Bool
gives_event (ready (some event)) = true
gives_event (ready none) = false
gives_event pending = false

-- A poll that gives no event finds nothing in the queue, and no snapshot owed.
no_event :
    (waker : Waker) (sh : Shared) (queue : List Queued) (dirty closed : Bool)
    → sh.state.queue ≡ queue
    → sh.state.dirty ≡ dirty
    → sh.state.closed ≡ closed
    → gives_event (poll_next waker sh).0 ≡ false
    → (queue ≡ [])
      × (dirty ≡ false)
      × ((poll_next waker sh).0 ≡ (if closed then ready none else pending))
unfolding deliver
no_event waker sh (snapshot ∷ rest) dirty closed q d c quiet =
    absurd (cc (quiet, ap (λ n. gives_event n.0) (poll_next-deliver waker sh snapshot rest q)))
no_event waker sh (failure e ∷ rest) dirty closed q d c quiet =
    absurd (cc (quiet, ap (λ n. gives_event n.0) (poll_next-deliver waker sh (failure e) rest q)))
no_event waker sh [] true closed q d c quiet =
    absurd (cc (quiet, ap (λ n. gives_event n.0) (poll_next-dirty waker sh q d)))
no_event waker sh [] false true q d c quiet = (refl, refl, rw (poll_next-end waker sh q d c) refl)
no_event waker sh [] false false q d c quiet =
    (refl, refl, rw (poll_next-pending waker sh q d c) refl)

snapshots-front : (qs : List Queued) → snapshots qs ≤ 1 + snapshots (behind_front qs)
snapshots-front [] = omega arith
snapshots-front (q ∷ qs) = ground arith

module _ ⦃equality : Equality⦄ where
  -- A poll that gives no event, at any point of a run, leaves the subscriber with the present
  -- configuration and health as the last that it was told; the stream then ends where the backend
  -- stopped, which the health says, and else waits.
  pub poll_next-no_event :
      (initial : ProxyConfig) (s : System) (waker : Waker)
      → Reach initial s
      → gives_event (poll_next waker s.shared).0 ≡ false
      → (s.seen ≡ some (stamp s.shared))
        × ((poll_next waker s.shared).0
            ≡ (if (stamp s.shared).health.stopped then ready none else pending))
  unfolding stamp merged_health
  poll_next-no_event initial s waker reach quiet =
      let sound = Reach-IsSound initial s reach in
      let (q, d, p) = no_event waker s.shared _ _ _ refl refl refl quiet in
      (sound.fresh (rw q refl) d, p)

  -- At every point of a run the queue has at most 1025 changes; at most two of them are snapshots,
  -- and at most one failure stands behind the last snapshot.
  pub queue-bounds :
      (initial : ProxyConfig) (s : System)
      → Reach initial s
      → (length s.shared.state.queue ≤ 1025)
        × (snapshots s.shared.state.queue ≤ 2)
        × (trailing s.shared.state.queue ≤ 1)
  queue-bounds initial s reach =
      let tidy = (Reach-IsSound initial s reach).tidy in
      (
        omega (arith, tidy.short, tidy.one_failure),
        omega (arith, tidy.few, snapshots-front s.shared.state.queue),
        tidy.one_failure,
      )
