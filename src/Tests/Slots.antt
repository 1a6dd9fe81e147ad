-- ===== src/Tests/Slots.antt =====
-- Runs of the threads that evaluate scripts.
use proxy_watch.Pac.Slots.{
  Idle, Slots, Move, acquire, pop, spawn, receive, publish, drop_slot, time_out, settle, move,
  Reach, here, step, fresh, swap_remove,
}
use proxy_watch.Pac.Slots.Counts.{Reach-counts, total, load, lives}
use proxy_watch.Pac.Slots.Invariant.{Reach-found, found, is_waiting}
use proxy_watch.Pac.Slots.Sums.{own}
use proxy_watch.Prelude.{◌+◌, ◌≤◌, ◌≡◌, true, none, some, List, [], ◌∷◌, refl, arith}

-- Of another process, and older than any thread here.
abbrev stale : List Idle
stale = record { id = 2; process = 40 } ∷ []

abbrev after : List Move → Slots → Slots
after [] s = s
after (m ∷ ms) s = elim (move 2 41 m s) [ none ↦ s | some t ↦ after ms t ]

abbrev begun : Slots
begun = fresh stale 0 3

-- One evaluation passes the stale entry and makes a thread; a second takes that thread off the list
-- while it lingers out.
abbrev moves : List Move
moves =
    acquire
    ∷ pop
    ∷ pop
    ∷ spawn
    ∷ receive 3
    ∷ publish 3
    ∷ drop_slot 3
    ∷ time_out 3
    ∷ acquire
    ∷ pop
    ∷ settle 3
    ∷ []

reached : Reach 2 41 begun (after moves begun)
unfolding move swap_remove
reached =
    step (settle 3)
      (step pop
        (step acquire
          (step (time_out 3)
            (step (drop_slot 3)
              (step (publish 3)
                (step (receive 3)
                  (step spawn (step pop (step pop (step acquire here refl) refl) refl) refl) refl)
                refl)
              refl)
            refl)
          refl)
        refl)
      refl

Reach-found_example :
    (found 41 3 (after moves begun).idle ((after moves begun).workers 3) 3 ≡ 1)
    × (is_waiting 41 3 ((after moves begun).workers 3).phase ≡ true)
unfolding move swap_remove own
Reach-found_example = Reach-found 41 3 2 0 stale 3 (refl, tt) reached (omega arith)

Reach-counts_example :
    ((after moves begun).taken
      ≡ 0
        + (after moves begun).held
        + (after moves begun).spawning
        + total load (after moves begun))
    × ((after moves begun).taken ≤ 2)
    × (total lives (after moves begun) + (after moves begun).spawning ≤ 2)
Reach-counts_example = Reach-counts 2 41 3 0 stale (refl, tt) (omega arith) reached
