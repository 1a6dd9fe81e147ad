-- ===== src/Watch/Queue/Renewal.antt =====
-- src/watch.rs: what a new configuration does to the queue of changes, and the trimming of it.
use proxy_watch.Prelude.{
  ℕ, zero, suc, ◌+◌, ◌≤◌, true, false, Option, none, some, List, [], ◌∷◌, ◌++◌, ◌≡◌, inl, inr, refl,
  sym, subst, arith, length, Option-cases, Bool-cases, ltb, ◌==◌,
}
use proxy_watch.Watch.Queue.{
  Queued, snapshot, failure, last_snapshot, remove_at, renew, renew_at, trim_to_capacity,
  max_queued_changes,
}
use proxy_watch.Watch.Queue.Tidy.{
  IsTidy, has_snapshot, snapshots, behind_front, trailing, has_snapshot-end, trailing-end,
  trailing-none, snapshots-append, snapshots-behind_front,
}

snapshots-none : (qs : List Queued) → last_snapshot qs ≡ none → snapshots qs ≡ 0
unfolding last_snapshot
snapshots-none [] h = refl
snapshots-none (q ∷ qs) h = ground (arith, snapshots-none qs)

has_snapshot-none : (qs : List Queued) → last_snapshot qs ≡ none → has_snapshot qs ≡ false
unfolding last_snapshot
has_snapshot-none [] h = refl
has_snapshot-none (q ∷ qs) h = ground (arith, has_snapshot-none qs)

last_snapshot-some :
    (qs : List Queued) (at : ℕ)
    → last_snapshot qs ≡ some at
    → (has_snapshot qs ≡ true) × (suc at + trailing qs ≡ length qs)
unfolding last_snapshot
last_snapshot-some [] at h = cc h
last_snapshot-some (q ∷ qs) at h = elim (Option-cases (last_snapshot qs)) [
  | inl e ↦
      let bare = has_snapshot-none qs e in
      (ground (arith, h, e, bare), ground (arith, h, e, bare, trailing-none qs bare))
  | inr (m, e) ↦
      let (has, len) = last_snapshot-some qs m e in
      (ground (arith, has), ground (arith, h, e, has, len))
]

snapshots-remove_at :
    (qs : List Queued) (at : ℕ)
    → last_snapshot qs ≡ some at
    → suc (snapshots (remove_at at qs)) ≡ snapshots qs
unfolding last_snapshot remove_at
snapshots-remove_at [] at h = cc h
snapshots-remove_at (q ∷ qs) zero h = ground (arith, h, snapshots-none qs)
snapshots-remove_at (q ∷ qs) (suc at) h = ground (arith, snapshots-remove_at qs at)

last_snapshot-at_end :
    (qs : List Queued) (at : ℕ)
    → last_snapshot qs ≡ some at
    → (length qs == suc at) ≡ true
    → (has_snapshot qs ≡ true) × (trailing qs ≡ 0)
last_snapshot-at_end qs at h e =
    let (has, len) = last_snapshot-some qs at h in (has, ground (arith, len, e))

last_snapshot-front :
    (q : Queued) (qs : List Queued) → last_snapshot (q ∷ qs) ≡ some 0 → last_snapshot qs ≡ none
unfolding last_snapshot
last_snapshot-front q qs h = ground (arith, h)

last_snapshot-behind :
    (q : Queued) (qs : List Queued) (at : ℕ)
    → last_snapshot (q ∷ qs) ≡ some (suc at)
    → last_snapshot qs ≡ some at
unfolding last_snapshot
last_snapshot-behind q qs at h = ground (arith, h)

-- A queue whose last change is a snapshot.
abbrev pub EndsFresh : List Queued → Type 0
EndsFresh queue = (has_snapshot queue ≡ true) × (trailing queue ≡ 0)

EndsFresh-end : (qs : List Queued) → EndsFresh (qs ++ snapshot ∷ [])
EndsFresh-end qs = (has_snapshot-end qs, trailing-end qs)

renew_at-EndsFresh :
    (at : Option ℕ) (queue : List Queued) → last_snapshot queue ≡ at → EndsFresh (renew_at at queue)
unfolding renew_at
renew_at-EndsFresh none queue h = EndsFresh-end queue
renew_at-EndsFresh (some zero) queue h = elim (Bool-cases (length queue == 1)) [
  | inl e ↦ rw e (last_snapshot-at_end queue 0 h e)
  | inr e ↦ rw e (EndsFresh-end queue)
]
renew_at-EndsFresh (some (suc n)) queue h = elim (Bool-cases (length queue == suc (suc n))) [
  | inl e ↦ rw e (last_snapshot-at_end queue (suc n) h e)
  | inr e ↦ rw e (EndsFresh-end (remove_at (suc n) queue))
]

renew_at-few :
    (at : Option ℕ) (queue : List Queued)
    → last_snapshot queue ≡ at
    → snapshots (behind_front queue) ≤ 1
    → snapshots (behind_front (renew_at at queue)) ≤ 1
unfolding renew_at remove_at
renew_at-few none [] h few = few
renew_at-few none (q ∷ qs) h few =
    omega (arith, snapshots-none (q ∷ qs) h, snapshots-append qs (snapshot ∷ []))
renew_at-few (some zero) [] h few = few
renew_at-few (some zero) (q ∷ qs) h few = ground (
  arith,
  few,
  snapshots-append qs (snapshot ∷ []),
  snapshots-none qs (last_snapshot-front q qs h),
)
renew_at-few (some (suc n)) [] h few = ground arith
renew_at-few (some (suc n)) (q ∷ qs) h few = ground (
  arith,
  few,
  snapshots-append (remove_at n qs) (snapshot ∷ []),
  snapshots-remove_at qs n (last_snapshot-behind q qs n h),
)

trim_to_capacity-long :
    (q : Queued) (qs : List Queued) (dropped : ℕ)
    → ltb max_queued_changes (length (q ∷ qs)) ≡ true
    → trim_to_capacity (q ∷ qs) dropped ≡ trim_to_capacity qs (dropped + 1)
unfolding trim_to_capacity
trim_to_capacity-long q qs dropped e = rw (trim_to_capacity, e) refl

trim_to_capacity-fits :
    (q : Queued) (qs : List Queued) (dropped : ℕ)
    → ltb max_queued_changes (length (q ∷ qs)) ≡ false
    → trim_to_capacity (q ∷ qs) dropped ≡ (q ∷ qs, dropped)
unfolding trim_to_capacity
trim_to_capacity-fits q qs dropped e = rw (trim_to_capacity, e) refl

-- What holds of a trimmed queue that holds of a short one, and of the rest of a long one.
trim_to_capacity-ind :
    (P : List Queued → Type 0)
    → ((q : Queued) (qs : List Queued)
        → ltb max_queued_changes (length (q ∷ qs)) ≡ true
        → P (q ∷ qs)
        → P qs)
    → (queue : List Queued) (dropped : ℕ) → P queue
    → P (trim_to_capacity queue dropped).0
unfolding trim_to_capacity
trim_to_capacity-ind P shorter [] dropped h = h
trim_to_capacity-ind P shorter (q ∷ qs) dropped h =
    elim (Bool-cases (ltb max_queued_changes (length (q ∷ qs)))) [
      | inl e ↦
          subst (λ r. P r.0) (sym (trim_to_capacity-long q qs dropped e))
            (trim_to_capacity-ind P shorter qs (dropped + 1) (shorter q qs e h))
      | inr e ↦ subst (λ r. P r.0) (sym (trim_to_capacity-fits q qs dropped e)) h
    ]

-- Trimming takes from the front only, and a queue that ends with a snapshot still does.
EndsFresh-tail :
    (q : Queued) (qs : List Queued)
    → ltb max_queued_changes (length (q ∷ qs)) ≡ true
    → EndsFresh (q ∷ qs)
    → EndsFresh qs
EndsFresh-tail q qs e (has, last) = elim (Bool-cases (has_snapshot qs)) [
  | inl h ↦ (h, ground (arith, has, last))
  | inr h ↦ absurd (ground (arith, has, last, e, trailing-none qs h))
]

trim_to_capacity-few :
    (queue : List Queued) (dropped : ℕ)
    → snapshots (behind_front queue) ≤ 1
    → snapshots (behind_front (trim_to_capacity queue dropped).0) ≤ 1
trim_to_capacity-few =
    trim_to_capacity-ind (λ q. snapshots (behind_front q) ≤ 1)
      (λ q qs e few. omega (arith, few, snapshots-behind_front qs))

trim_to_capacity-short :
    (queue : List Queued) (dropped : ℕ)
    → length (trim_to_capacity queue dropped).0 ≤ max_queued_changes
unfolding trim_to_capacity
trim_to_capacity-short [] dropped = omega arith
trim_to_capacity-short (q ∷ qs) dropped =
    elim (Bool-cases (ltb max_queued_changes (length (q ∷ qs)))) [
      | inl e ↦
          subst (λ r. length r.0 ≤ max_queued_changes) (sym (trim_to_capacity-long q qs dropped e))
            (trim_to_capacity-short qs (dropped + 1))
      | inr e ↦
          subst (λ r. length r.0 ≤ max_queued_changes) (sym (trim_to_capacity-fits q qs dropped e))
            (ground (arith, e))
    ]

renew-EndsFresh :
    (queue : List Queued) (dropped : ℕ) → EndsFresh (trim_to_capacity (renew queue) dropped).0
unfolding renew
renew-EndsFresh queue dropped =
    trim_to_capacity-ind EndsFresh EndsFresh-tail (renew queue) dropped
      (renew_at-EndsFresh (last_snapshot queue) queue refl)

-- The queue after a change, and that it ends with the snapshot that the change is owed.
pub renew-IsTidy :
    (queue : List Queued) (dropped : ℕ)
    → IsTidy queue
    → IsTidy (trim_to_capacity (renew queue) dropped).0
unfolding renew
renew-IsTidy queue dropped tidy =
    let few = renew_at-few (last_snapshot queue) queue refl tidy.few in
    let last = (renew-EndsFresh queue dropped).1 in
    record {
      few = trim_to_capacity-few (renew queue) dropped few;
      one_failure = omega (arith, last);
      short = omega (arith, last, trim_to_capacity-short (renew queue) dropped);
    }

pub renew-has_snapshot :
    (queue : List Queued) (dropped : ℕ)
    → has_snapshot (trim_to_capacity (renew queue) dropped).0 ≡ true
renew-has_snapshot queue dropped = (renew-EndsFresh queue dropped).0

last-EndsFresh :
    (queue : List Queued)
    → EndsFresh queue
    → (before : List Queued) × (queue ≡ before ++ snapshot ∷ [])
last-EndsFresh [] (has, last) = absurd (cc has)
last-EndsFresh (snapshot ∷ []) (has, last) = ([], refl)
last-EndsFresh (failure e ∷ []) (has, last) = absurd (cc has)
last-EndsFresh (q ∷ r ∷ rs) (has, last) = elim (Bool-cases (has_snapshot (r ∷ rs))) [
  | inl h ↦
      let (before, e) = last-EndsFresh (r ∷ rs) (h, ground (arith, has, last)) in (q ∷ before, cc e)
  | inr h ↦ absurd (ground (arith, has, last, h, trailing-none (r ∷ rs) h))
]

-- The renewed queue ends with a snapshot, and is within its capacity.
pub renewed-last :
    (queue : List Queued) (dropped : ℕ)
    → let kept = (trim_to_capacity (renew queue) dropped).0 in
      ((before : List Queued) × (kept ≡ before ++ snapshot ∷ []))
      × (length kept ≤ max_queued_changes)
renewed-last queue dropped =
    (last-EndsFresh _ (renew-EndsFresh queue dropped), trim_to_capacity-short (renew queue) dropped)
