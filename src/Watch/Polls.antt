-- ===== src/Watch/Polls.antt =====
-- src/watch.rs: `poll_next`, by what the state has to deliver.
use proxy_watch.Prelude.{true, false, some, none, List, [], ◌∷◌, ◌≡◌, refl}
use proxy_watch.Watch.{
  Shared, ready, pending, Waker, snapshot_event, poll_next, poll_empty, deliver, stamp,
}
use proxy_watch.Watch.Queue.{Queued}

abbrev pub settled : Shared → Shared
settled sh = record sh { state = record sh.state { dirty = false } }

abbrev pub waiting : Waker → Shared → Shared
waiting waker sh = record sh { state = record sh.state { waker = some waker } }

module _ (waker : Waker) (sh : Shared) where
  pub poll_next-deliver :
      (item : Queued) (rest : List Queued)
      → sh.state.queue ≡ item ∷ rest
      → poll_next waker sh ≡ deliver item rest sh
  unfolding poll_next
  poll_next-deliver item rest q = rw (poll_next, q) refl

  module _ (q : sh.state.queue ≡ []) where
    pub poll_next-dirty :
        sh.state.dirty ≡ true
        → poll_next waker sh ≡ (ready (some (snapshot_event (stamp (settled sh)))), settled sh)
    unfolding poll_next poll_empty
    poll_next-dirty d = simp (poll_next, q, poll_empty, d) refl

    pub poll_next-end :
        sh.state.dirty ≡ false → sh.state.closed ≡ true → poll_next waker sh ≡ (ready none, sh)
    unfolding poll_next poll_empty
    poll_next-end d c = simp (poll_next, q, poll_empty, d, c) refl

    pub poll_next-pending :
        sh.state.dirty ≡ false
        → sh.state.closed ≡ false
        → poll_next waker sh ≡ (pending, waiting waker sh)
    unfolding poll_next poll_empty
    poll_next-pending d c = simp (poll_next, q, poll_empty, d, c) refl
