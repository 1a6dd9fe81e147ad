-- ===== src/Watch/Run/Worse.antt =====
-- src/watch.rs: the part of the state that the health is made of only ever loses routes.
use proxy_watch.Config.{ProxyConfigSource}
use proxy_watch.Error.{Error}
use proxy_watch.Prelude.{
  Bool, true, false, none, List, [], ◌∷◌, ◌++◌, ◌≡◌, inl, inr, refl, sym, ap, is_some,
  if◌then◌else◌, Option-cases, append-nil, append_assoc, ◌∙◌,
}
use proxy_watch.Watch.{
  Shared, Waker, Woken, wake, poll_next, emit, replace_current, fail, degrade,
  mark_no_live_notifications, close, drop_guard, panicked, deliver, degraded_by, without_live,
  closed_state,
}
use proxy_watch.Watch.Health.{Equality}
use proxy_watch.Watch.Polls.{poll_next-deliver, poll_next-dirty, poll_next-end, poll_next-pending}
use proxy_watch.Watch.Queue.{replace_failure, Queued, snapshot, failure}
use proxy_watch.Watch.Run.{
  Action, act, System, Step, backend, constructor_ends, subscriber, emitting, failing, degrading,
  losing_live_notifications, closing, dropping_guard,
}

pub record IsWorse (a b : Shared) : Type 0 where
  pub same_construction : b.construction ≡ a.construction
  pub more_degraded :
      (more : List ProxyConfigSource) × (b.state.runtime_degraded
        ≡ a.state.runtime_degraded ++ more)
  pub no_live :
      a.state.runtime_no_live_notifications ≡ true → b.state.runtime_no_live_notifications ≡ true
  pub stopped : a.state.closed ≡ true → b.state.closed ≡ true

pub IsWorse-refl : (sh : Shared) → IsWorse sh sh
IsWorse-refl sh = record {
  same_construction = refl;
  more_degraded = ([], sym (append-nil _));
  no_live = λ h. h;
  stopped = λ h. h;
}

pub IsWorse-trans : (a b c : Shared) → IsWorse a b → IsWorse b c → IsWorse a c
IsWorse-trans a b c x y =
    let (m, e) = x.more_degraded in
    let (n, f) = y.more_degraded in
    record {
      same_construction = cc (x.same_construction, y.same_construction);
      more_degraded = (m ++ n, f ∙ ap (λ l. l ++ n) e ∙ append_assoc a.state.runtime_degraded m n);
      no_live = λ h. y.no_live (x.no_live h);
      stopped = λ h. y.stopped (x.stopped h);
    }

unless-IsWorse :
    (sh : Shared) (b : Bool) (changed : Woken)
    → IsWorse sh changed.0
    → IsWorse sh (if b then (sh, none) else changed).0
unless-IsWorse sh true changed h = IsWorse-refl sh
unless-IsWorse sh false changed h = h

-- A change of the queue, the configuration or the waker only.
same-IsWorse :
    (sh t : Shared)
    → t.construction ≡ sh.construction
    → t.state.runtime_degraded ≡ sh.state.runtime_degraded
    → t.state.runtime_no_live_notifications ≡ sh.state.runtime_no_live_notifications
    → t.state.closed ≡ sh.state.closed
    → IsWorse sh t
same-IsWorse sh t c d l e = record {
  same_construction = c;
  more_degraded = ([], d ∙ sym (append-nil _));
  no_live = λ h. cc (l, h);
  stopped = λ h. cc (e, h);
}

degrade-IsWorse : (source : ProxyConfigSource) (sh : Shared) → IsWorse sh (degrade source sh).0
unfolding degrade
degrade-IsWorse source sh = unless-IsWorse sh _ (wake sh (degraded_by source sh.state)) (record {
  same_construction = refl;
  more_degraded = (source ∷ [], refl);
  no_live = λ h. h;
  stopped = λ h. h;
})

mark_no_live_notifications-IsWorse : (sh : Shared) → IsWorse sh (mark_no_live_notifications sh).0
unfolding mark_no_live_notifications
mark_no_live_notifications-IsWorse sh =
    unless-IsWorse sh _ (wake sh (without_live sh.state)) (record {
      same_construction = refl;
      more_degraded = ([], sym (append-nil _));
      no_live = λ h. refl;
      stopped = λ h. h;
    })

close-IsWorse : (sh : Shared) → IsWorse sh (close sh).0
unfolding close
close-IsWorse sh = unless-IsWorse sh _ (wake sh (closed_state sh.state)) (record {
  same_construction = refl;
  more_degraded = ([], sym (append-nil _));
  no_live = λ h. h;
  stopped = λ h. refl;
})

fail-IsWorse : (e : Error) (sh : Shared) → IsWorse sh (fail e sh).0
unfolding fail
fail-IsWorse e sh = elim (Option-cases (replace_failure e sh.state.queue)) [
  | inl h ↦ rw (fail, h) (same-IsWorse sh _ refl refl refl refl)
  | inr (queue, h) ↦ rw (fail, h) (same-IsWorse sh _ refl refl refl refl)
]

drop_guard-IsWorse : (panicking : Bool) (sh : Shared) → IsWorse sh (drop_guard panicking sh).0
unfolding drop_guard
drop_guard-IsWorse false sh = close-IsWorse sh
drop_guard-IsWorse true sh =
    let marked = mark_no_live_notifications sh in
    let failed = fail panicked marked.0 in
    IsWorse-trans sh marked.0 _ (mark_no_live_notifications-IsWorse sh)
      (IsWorse-trans marked.0 failed.0 _ (fail-IsWorse panicked marked.0) (close-IsWorse failed.0))

deliver-IsWorse :
    (item : Queued) (rest : List Queued) (sh : Shared) → IsWorse sh (deliver item rest sh).1
unfolding deliver
deliver-IsWorse snapshot rest sh = same-IsWorse sh _ refl refl refl refl
deliver-IsWorse (failure e) rest sh = same-IsWorse sh _ refl refl refl refl

poll_next-IsWorse :
    (waker : Waker) (sh : Shared) (queue : List Queued) (dirty closed : Bool)
    → sh.state.queue ≡ queue
    → sh.state.dirty ≡ dirty
    → sh.state.closed ≡ closed
    → IsWorse sh (poll_next waker sh).1
poll_next-IsWorse waker sh (item ∷ rest) dirty closed q d c =
    rw (poll_next-deliver waker sh item rest q) (deliver-IsWorse item rest sh)
poll_next-IsWorse waker sh [] true closed q d c =
    rw (poll_next-dirty waker sh q d) (same-IsWorse sh _ refl refl refl refl)
poll_next-IsWorse waker sh [] false true q d c = rw (poll_next-end waker sh q d c) (IsWorse-refl sh)
poll_next-IsWorse waker sh [] false false q d c =
    rw (poll_next-pending waker sh q d c) (same-IsWorse sh _ refl refl refl refl)

module _ ⦃equality : Equality⦄ where
  act-IsWorse : (a : Action) (sh : Shared) → IsWorse sh (act a sh).0
  unfolding act emit replace_current
  act-IsWorse (emitting config) sh =
      unless-IsWorse sh _ (replace_current config sh) (same-IsWorse sh _ refl refl refl refl)
  act-IsWorse (failing e) sh = fail-IsWorse e sh
  act-IsWorse (degrading source) sh = degrade-IsWorse source sh
  act-IsWorse losing_live_notifications sh = mark_no_live_notifications-IsWorse sh
  act-IsWorse closing sh = close-IsWorse sh
  act-IsWorse (dropping_guard panicking) sh = drop_guard-IsWorse panicking sh

  -- Once the health was established, every step only loses routes.
  pub Step-IsWorse :
      (s t : System) → Step s t → is_some s.shared.construction ≡ true → IsWorse s.shared t.shared
  Step-IsWorse s t (backend a) est = act-IsWorse a s.shared
  Step-IsWorse s t (constructor_ends health interval unset) est = absurd (cc (unset, est))
  Step-IsWorse s t (subscriber waker _) est = poll_next-IsWorse waker s.shared _ _ _ refl refl refl
