-- ===== src/Watch/Queue/Failures.antt =====
-- src/watch.rs: what a failure does to the queue of changes.
use proxy_watch.Error.{Error}
use proxy_watch.Prelude.{
  ◌≤◌, none, some, List, [], ◌∷◌, ◌++◌, ◌≡◌, inl, inr, refl, arith, length, length-append,
  Option-cases,
}
use proxy_watch.Watch.Queue.{Queued, snapshot, failure, replace_failure, max_queued_changes}
use proxy_watch.Watch.Queue.Tidy.{
  IsTidy, snapshots, behind_front, trailing, trailing-failure, snapshots-append,
}

-- What `fail` leaves: as many changes, or one more where the last was no failure.
pub replace_failure-some :
    (e : Error) (queue replaced : List Queued)
    → replace_failure e queue ≡ some replaced
    → (before : List Queued) × (last : Error) × (queue ≡ before ++ failure last ∷ [])
      × (replaced ≡ before ++ failure e ∷ [])
unfolding replace_failure
replace_failure-some e [] replaced h = cc h
replace_failure-some e (snapshot ∷ []) replaced h = cc h
replace_failure-some e (failure last ∷ []) replaced h = ([], last, refl, cc h)
replace_failure-some e (q ∷ r ∷ qs) replaced h = elim (Option-cases (replace_failure e (r ∷ qs))) [
  | inl n ↦ absurd (ground (arith, h, n))
  | inr (rest, m) ↦
      let (before, last, x, y) = replace_failure-some e (r ∷ qs) rest m in
      (q ∷ before, last, cc x, ground (arith, h, m, y))
]

pub replace_failure-none :
    (e : Error) (queue : List Queued) → replace_failure e queue ≡ none → trailing queue ≡ 0
unfolding replace_failure
replace_failure-none e [] h = refl
replace_failure-none e (snapshot ∷ []) h = refl
replace_failure-none e (failure last ∷ []) h = cc h
replace_failure-none e (q ∷ r ∷ qs) h = ground (arith, h, replace_failure-none e (r ∷ qs))

snapshots-behind_front-failure :
    (queue : List Queued) (e : Error)
    → snapshots (behind_front (queue ++ failure e ∷ [])) ≡ snapshots (behind_front queue)
snapshots-behind_front-failure [] e = refl
snapshots-behind_front-failure (q ∷ qs) e = omega (arith, snapshots-append qs (failure e ∷ []))

failure-IsTidy :
    (queue : List Queued) (e : Error)
    → snapshots (behind_front queue) ≤ 1
    → trailing queue ≡ 0
    → length queue ≤ max_queued_changes
    → IsTidy (queue ++ failure e ∷ [])
failure-IsTidy queue e few none_behind short = record {
  few = omega (arith, few, snapshots-behind_front-failure queue e);
  one_failure = omega (arith, none_behind, trailing-failure queue e);
  short =
      omega
        (arith, none_behind, short, trailing-failure queue e, length-append queue (failure e ∷ []));
}

pub pushed-IsTidy :
    (queue : List Queued) (e : Error)
    → IsTidy queue
    → trailing queue ≡ 0
    → IsTidy (queue ++ failure e ∷ [])
pushed-IsTidy queue e tidy none_behind =
    failure-IsTidy queue e tidy.few none_behind (omega (arith, none_behind, tidy.short))

pub replaced-IsTidy :
    (queue : List Queued) (last e : Error)
    → IsTidy (queue ++ failure last ∷ [])
    → IsTidy (queue ++ failure e ∷ [])
replaced-IsTidy queue last e tidy =
    let len = length-append queue (failure last ∷ []) in
    let none_behind : trailing queue ≡ 0 =
      omega (arith, trailing-failure queue last, tidy.one_failure) in
    failure-IsTidy queue e (omega (arith, snapshots-behind_front-failure queue last, tidy.few))
      none_behind (omega (arith, len, none_behind, trailing-failure queue last, tidy.short))
