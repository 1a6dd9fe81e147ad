-- ===== src/Watch/Run/Draining.antt =====
-- src/watch.rs: a subscriber that keeps polling gets the whole queue, in order.
use proxy_watch.Config.{ProxyConfig}
use proxy_watch.Error.{Error}
use proxy_watch.Prelude.{
  ℕ, zero, suc, ◌+◌, Bool, true, false, Option, some, none, List, [], ◌∷◌, ◌++◌, ◌≡◌, inl, inr,
  refl, ap, map, ◌∙◌, arith, length, Option-cases, map_option, ◌≤◌, if◌then◌else◌,
}
use proxy_watch.Watch.{
  Shared, WatchEvent, snapshot_event, error_event, Poll, pending, ready, Waker, poll_next, deliver,
  stamp, merged_health, construction_health, emit, replace_current, fail,
}
use proxy_watch.Watch.Health.{Equality, WatchState, same_config}
use proxy_watch.Watch.Polls.{settled, poll_next-deliver, poll_next-dirty, poll_next-end}
use proxy_watch.Watch.Queue.{Queued, snapshot, failure, replace_failure}
use proxy_watch.Watch.Queue.Failures.{replace_failure-some}
use proxy_watch.Watch.Queue.Renewal.{renewed-last}
use proxy_watch.Watch.Queue.Tidy.{has_snapshot}

-- What `n` polls in a row give, and the state after them.
abbrev pub poll_times : ℕ → Waker → Shared → List Poll × Shared
poll_times zero waker sh = ([], sh)
poll_times (suc n) waker sh =
    let next = poll_next waker sh in
    let rest = poll_times n waker next.1 in (next.0 ∷ rest.0, rest.1)

abbrev pub event_for : WatchState → Queued → WatchEvent
event_for st snapshot = snapshot_event st
event_for st (failure e) = error_event e st

abbrev collected : Poll → Option (List WatchEvent) → Option (List WatchEvent)
collected pending rest = none
collected (ready none) rest = some []
collected (ready (some event)) rest = map_option (λ events. event ∷ events) rest

-- `while let Some(event) = stream.next()`, for at most so many polls, and while no poll waits.
abbrev pub collect : ℕ → Waker → Shared → Option (List WatchEvent)
collect zero waker sh = none
collect (suc n) waker sh =
    let next = poll_next waker sh in let rest = collect n waker next.1 in collected next.0 rest

collect-next :
    (n : ℕ) (waker : Waker) (sh : Shared) (next : Poll × Shared)
    → poll_next waker sh ≡ next
    → collect (suc n) waker sh ≡ collected next.0 (collect n waker next.1)
collect-next n waker sh next h = ap (λ r. collected r.0 (collect n waker r.1)) h

-- The snapshot that stands behind the queue, if one is owed that the queue does not hold.
abbrev pub owed : Bool → List Queued → WatchState → List WatchEvent
owed dirty queue st =
    if has_snapshot queue then [] else if dirty then snapshot_event st ∷ [] else []

if-same : {A : Type 0} (b : Bool) (a : A) → (if b then a else a) ≡ a
if-same true a = refl
if-same false a = refl

owed-settled : (queue : List Queued) (st : WatchState) → owed false queue st ≡ []
owed-settled queue st = if-same (has_snapshot queue) []

collect_from :
    (fuel : ℕ) (waker : Waker) (queue : List Queued) (dirty : Bool) (sh : Shared)
    → sh.state.queue ≡ queue
    → sh.state.dirty ≡ dirty
    → sh.state.closed ≡ true
    → length queue + (if dirty then 2 else 1) ≤ fuel
    → collect fuel waker sh ≡ some (map (event_for (stamp sh)) queue ++ owed dirty queue (stamp sh))
unfolding deliver stamp merged_health construction_health
collect_from zero waker queue dirty sh q d c enough = absurd (ground (arith, enough))
collect_from (suc n) waker [] false sh q d c enough =
    collect-next n waker sh _ (poll_next-end waker sh q d c)
collect_from (suc n) waker [] true sh q d c enough =
    collect-next n waker sh _ (poll_next-dirty waker sh q d)
    ∙ ap (map_option (λ events. snapshot_event (stamp sh) ∷ events))
        (collect_from n waker [] false (settled sh) q refl c (omega (arith, enough)))
collect_from (suc n) waker (snapshot ∷ rest) dirty sh q d c enough =
    collect-next n waker sh _ (poll_next-deliver waker sh snapshot rest q)
    ∙ ap (map_option (λ events. snapshot_event (stamp sh) ∷ events)) (
        collect_from n waker rest false (deliver snapshot rest sh).1 refl refl c
          (ground (arith, enough)))
    ∙ ap (λ o. some (snapshot_event (stamp sh) ∷ (map (event_for (stamp sh)) rest ++ o)))
        (owed-settled rest (stamp sh))
collect_from (suc n) waker (failure e ∷ rest) dirty sh q d c enough =
    collect-next n waker sh _ (poll_next-deliver waker sh (failure e) rest q)
    ∙ ap (map_option (λ events. error_event e (stamp sh) ∷ events)) (
        collect_from n waker rest dirty (deliver (failure e) rest sh).1 refl d c
          (omega (arith, enough)))

-- A subscription that was closed ends: however a subscriber polls it, with as many polls as there
-- are changes in the queue and two more, it gets the changes in their order, each with the present
-- configuration and health, then a snapshot if one is owed that the queue did not hold, and then
-- the end.
pub collect-closed :
    (sh : Shared) (waker : Waker) (fuel : ℕ)
    → sh.state.closed ≡ true
    → length sh.state.queue + 2 ≤ fuel
    → collect fuel waker sh
      ≡ some (
          map (event_for (stamp sh)) sh.state.queue
          ++ owed sh.state.dirty sh.state.queue (stamp sh))
collect-closed sh waker fuel c enough =
    collect_from fuel waker sh.state.queue sh.state.dirty sh refl refl c (ground (arith, enough))

-- Whatever the state, polling once for each change in the queue gives them all.
pub poll_times-queue :
    (waker : Waker) (queue : List Queued) (sh : Shared)
    → sh.state.queue ≡ queue
    → (poll_times (length queue) waker sh).0
      ≡ map (λ q. ready (some (event_for (stamp sh) q))) queue
unfolding deliver stamp merged_health construction_health
poll_times-queue waker [] sh q = refl
poll_times-queue waker (snapshot ∷ rest) sh q =
    ap (λ r. r.0 ∷ (poll_times (length rest) waker r.1).0)
      (poll_next-deliver waker sh snapshot rest q)
    ∙ ap (λ events. ready (some (snapshot_event (stamp sh))) ∷ events)
        (poll_times-queue waker rest (deliver snapshot rest sh).1 refl)
poll_times-queue waker (failure e ∷ rest) sh q =
    ap (λ r. r.0 ∷ (poll_times (length rest) waker r.1).0)
      (poll_next-deliver waker sh (failure e) rest q)
    ∙ ap (λ events. ready (some (error_event e (stamp sh))) ∷ events)
        (poll_times-queue waker rest (deliver (failure e) rest sh).1 refl)

map-last :
    {A B : Type 0} (f : A → B) (before : List A) (a : A)
    → map f (before ++ a ∷ []) ≡ map f before ++ f a ∷ []
map-last f [] a = refl
map-last f (x ∷ before) a = ap (λ l. f x ∷ l) (map-last f before a)

poll_times-last :
    (waker : Waker) (sh : Shared) (before : List Queued) (last : Queued)
    → sh.state.queue ≡ before ++ last ∷ []
    → (front : List Poll) × ((poll_times (length sh.state.queue) waker sh).0
        ≡ front ++ ready (some (event_for (stamp sh) last)) ∷ [])
poll_times-last waker sh before last q =
    let give = λ (i : Queued). ready (some (event_for (stamp sh) i)) in
    (
      map give before,
      poll_times-queue waker sh.state.queue sh refl ∙ ap (map give) q ∙ map-last give before last,
    )

-- A configuration that differs from the current one is delivered: polling once for each change that
-- is then in the queue, which are at most 1024, ends with a snapshot of it.
pub emit-delivered :
    ⦃equality : Equality⦄
    → (config : ProxyConfig) (sh : Shared) (waker : Waker)
    → same_config sh.state.current config ≡ false
    → let t = (emit config sh).0 in
      ((front : List Poll) × (st : WatchState) × (st.config ≡ config)
        × ((poll_times (length t.state.queue) waker t).0
            ≡ front ++ ready (some (snapshot_event st)) ∷ []))
      × (length t.state.queue ≤ 1024)
unfolding emit replace_current stamp
emit-delivered config sh waker differs =
    let ((before, q), short) = renewed-last sh.state.queue sh.state.dropped in
    let (front, polls) = poll_times-last waker (replace_current config sh).0 before snapshot q in
    rw differs ((front, stamp (replace_current config sh).0, refl, polls), short)

fail-last :
    (e : Error) (sh : Shared)
    → (before : List Queued) × ((fail e sh).0.state.queue ≡ before ++ failure e ∷ [])
unfolding fail
fail-last e sh = elim (Option-cases (replace_failure e sh.state.queue)) [
  | inl h ↦ rw (fail, h) (sh.state.queue, refl)
  | inr (queue, h) ↦
      let (before, last, was, now) = replace_failure-some e sh.state.queue queue h in
      rw (fail, h) (before, now)
]

-- A failure is delivered: polling once for each change that is in the queue after it ends with it.
pub fail-delivered :
    (e : Error) (sh : Shared) (waker : Waker)
    → let t = (fail e sh).0 in
      (front : List Poll) × ((poll_times (length t.state.queue) waker t).0
        ≡ front ++ ready (some (error_event e (stamp t))) ∷ [])
fail-delivered e sh waker =
    let (before, q) = fail-last e sh in poll_times-last waker (fail e sh).0 before (failure e) q
