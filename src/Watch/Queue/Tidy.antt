-- ===== src/Watch/Queue/Tidy.antt =====
-- src/watch.rs: the shape of the queue of changes, and what ends or shortens it.
use proxy_watch.Error.{Error}
use proxy_watch.Prelude.{
  ℕ, suc, ◌+◌, ◌≤◌, Bool, true, false, List, [], ◌∷◌, ◌++◌, ◌≡◌, inl, inr, refl, arith, length,
  length-append, Bool-cases, any, if◌then◌else◌,
}
use proxy_watch.Watch.Queue.{Queued, snapshot, failure, is_snapshot, max_queued_changes}

abbrev pub has_snapshot : List Queued → Bool
has_snapshot = any is_snapshot

abbrev pub snapshots : List Queued → ℕ
snapshots [] = 0
snapshots (q ∷ qs) = (if is_snapshot q then 1 else 0) + snapshots qs

abbrev pub behind_front : List Queued → List Queued
behind_front [] = []
behind_front (q ∷ qs) = qs

-- The number of failures behind the last snapshot, or of all if there is no snapshot.
abbrev pub trailing : List Queued → ℕ
trailing [] = 0
trailing (q ∷ qs) = if has_snapshot (q ∷ qs) then trailing qs else suc (length qs)

-- A queue with at most two snapshots, one of them at the front, and one failure at the end.
pub record IsTidy (queue : List Queued) : Type 0 where
  pub few : snapshots (behind_front queue) ≤ 1
  pub one_failure : trailing queue ≤ 1
  pub short : length queue ≤ max_queued_changes + trailing queue

pub has_snapshot-end : (qs : List Queued) → has_snapshot (qs ++ snapshot ∷ []) ≡ true
has_snapshot-end [] = refl
has_snapshot-end (q ∷ qs) = ground (arith, has_snapshot-end qs)

pub trailing-end : (qs : List Queued) → trailing (qs ++ snapshot ∷ []) ≡ 0
trailing-end [] = refl
trailing-end (q ∷ qs) = ground (arith, trailing-end qs, has_snapshot-end qs)

pub trailing-none : (qs : List Queued) → has_snapshot qs ≡ false → trailing qs ≡ length qs
trailing-none [] h = refl
trailing-none (q ∷ qs) h = rw h refl

pub has_snapshot-failure :
    (qs : List Queued) (e : Error) → has_snapshot (qs ++ failure e ∷ []) ≡ has_snapshot qs
has_snapshot-failure [] e = refl
has_snapshot-failure (q ∷ qs) e = ground (arith, has_snapshot-failure qs e)

pub trailing-failure :
    (qs : List Queued) (e : Error) → trailing (qs ++ failure e ∷ []) ≡ suc (trailing qs)
trailing-failure [] e = refl
trailing-failure (q ∷ qs) e = ground (
  arith,
  trailing-failure qs e,
  has_snapshot-failure qs e,
  length-append qs (failure e ∷ []),
  trailing-none qs,
)

pub snapshots-append : (qs rs : List Queued) → snapshots (qs ++ rs) ≡ snapshots qs + snapshots rs
snapshots-append [] rs = omega arith
snapshots-append (q ∷ qs) rs = omega (arith, snapshots-append qs rs)

pub snapshots-behind_front : (qs : List Queued) → snapshots (behind_front qs) ≤ snapshots qs
snapshots-behind_front [] = omega arith
snapshots-behind_front (q ∷ qs) = omega arith

pub popped-IsTidy : (q : Queued) (qs : List Queued) → IsTidy (q ∷ qs) → IsTidy qs
popped-IsTidy q qs tidy = elim (Bool-cases (has_snapshot qs)) [
  | inl h ↦ record {
    few = omega (arith, tidy.few, snapshots-behind_front qs);
    one_failure = ground (arith, h, tidy.one_failure);
    short = ground (arith, h, tidy.short, tidy.one_failure);
  }
  | inr h ↦
      let len = trailing-none qs h in
      record {
        few = omega (arith, tidy.few, snapshots-behind_front qs);
        one_failure = ground (arith, h, len, tidy.one_failure);
        short = omega (arith, len);
      }
]
