-- ===== src/Watch/Queue.antt =====
-- src/watch.rs: the queue of the changes that the subscriber has not taken yet.
pub mod Tidy
pub mod Renewal
pub mod Failures
use proxy_watch.Error.{Error}
use proxy_watch.Prelude.{
  ℕ, zero, suc, ◌+◌, ◌==◌, Bool, true, false, Option, none, some, List, [], ◌∷◌, ◌++◌, ltb,
  if◌then◌else◌, length, map_option,
}

pub data Queued : Type 0 where
  snapshot : Queued
  failure : Error → Queued

abbrev pub is_snapshot : Queued → Bool
is_snapshot snapshot = true
is_snapshot (failure _) = false

abbrev pub max_queued_changes : ℕ
max_queued_changes = 1024

-- The loop that pops the front, on the queue that it pops.
unfoldable pub trim_to_capacity : List Queued → ℕ → List Queued × ℕ
trim_to_capacity [] dropped = ([], dropped)
trim_to_capacity (q ∷ qs) dropped = elim (ltb max_queued_changes (length (q ∷ qs))) [
  | true ↦ trim_to_capacity qs (dropped + 1)
  | false ↦ (q ∷ qs, dropped)
]

-- `rposition` of the last snapshot.
unfoldable pub last_snapshot : List Queued → Option ℕ
last_snapshot [] = none
last_snapshot (q ∷ qs) = elim (last_snapshot qs) [
  | some at ↦ some (suc at)
  | none ↦ if is_snapshot q then some 0 else none
]

-- `VecDeque::remove`
unfoldable pub remove_at : ℕ → List Queued → List Queued
remove_at n [] = []
remove_at zero (q ∷ qs) = qs
remove_at (suc n) (q ∷ qs) = q ∷ remove_at n qs

-- The queue with a snapshot at its end that stands for the new configuration.
renew_at : Option ℕ → List Queued → List Queued
unfolding remove_at
renew_at none queue = queue ++ snapshot ∷ []
renew_at (some zero) queue = if length queue == 1 then queue else queue ++ snapshot ∷ []
renew_at (some (suc n)) queue =
    if length queue == suc (suc n) then queue else remove_at (suc n) queue ++ snapshot ∷ []

unfoldable pub renew : List Queued → List Queued
unfolding renew_at last_snapshot
renew queue = renew_at (last_snapshot queue) queue

-- The queue with the failure at its back replaced, if one stands there.
unfoldable pub replace_failure : Error → List Queued → Option (List Queued)
replace_failure e [] = none
replace_failure e (snapshot ∷ []) = none
replace_failure e (failure last ∷ []) = some (failure e ∷ [])
replace_failure e (q ∷ r ∷ qs) = map_option (λ rest. q ∷ rest) (replace_failure e (r ∷ qs))
