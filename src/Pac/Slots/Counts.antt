-- ===== src/Pac/Slots/Counts.antt =====
-- src/pac/budget.rs: how many slots are taken, and how many threads there are.
use proxy_watch.Pac.Slots.{
  Idle, Phase, starting, running, published, lingering, expired, committed, ending, ended, Worker,
  Slots, Move, acquire, release, pop, spawn, fail_spawn, send, receive, publish, crash, drop_slot,
  time_out, settle, finish, update, is_alive, swap_remove, is_idle, claim, pop_idle, new_thread,
  send_to, move, Reach, here, step, fresh,
}
use proxy_watch.Pac.Slots.Invariant.{
  Inv, Holds, Inherited, Reach-Inv, made_bounds, guarded_lem, is_made, is_serving,
}
use proxy_watch.Pac.Slots.Sums.{
  bit, own, sum_below, sum_below-zero, sum_below-le, sum_below-update, sum_below-suc, sum_below-at,
}
use proxy_watch.Prelude.{
  ℕ, ◌+◌, ◌-◌, ◌≤◌, ◌<◌, ◌≡◌, Bool, true, false, some, List, [], ◌∷◌, ltb, ◌==◌, ==_iff, refl,
  arith, Bool-cases, inl, inr, subst,
}

abbrev is_busy : Phase → Bool
is_busy running = true
is_busy published = true
is_busy _ = false

-- The slots that a thread has, or that are on the way to it.
abbrev pub load : Worker → ℕ
load w = w.claims + bit w.mail + bit (is_busy w.phase)

-- Whether it is a thread that is there and has not begun to end.
abbrev pub lives : Worker → ℕ
lives w = bit (is_serving w.phase)

abbrev pub total : (Worker → ℕ) → Slots → ℕ
total f s = sum_below s.next_thread (λ i. f (s.workers i))

module _ (limit process base lost : ℕ) where
  pub record Counts (s : Slots) : Type 0 where
    pub slots : s.taken ≡ lost + s.held + s.spawning + total load s
    pub within : s.taken ≤ limit
    pub threads : total lives s + s.spawning ≤ limit

  -- A thread in the place of one that was made, with what the counters come to.
  put-Counts :
      (s : Slots) (i : ℕ) (w : Worker) (taken held : ℕ) (l : List Idle)
      → Counts s
      → i < s.next_thread
      → taken + s.held + load (s.workers i) ≡ s.taken + held + load w
      → taken ≤ limit
      → lives w ≤ lives (s.workers i)
      → Counts (record s { taken = taken; held = held; idle = l; workers = update s.workers i w })
  put-Counts s i w taken held l c h e k a =
      let loads = sum_below-update load s.workers i w s.next_thread h in
      let lived = sum_below-update lives s.workers i w s.next_thread h in
      record {
        slots = omega (arith, c.slots, loads);
        within = k;
        threads = omega (arith, c.threads, lived);
      }

  -- Where no thread of this process is idle, each has a slot.
  lives-le-load :
      (s : Slots) → Inv process base [] s.next_thread s.workers → total lives s ≤ total load s
  unfolding own
  lives-le-load s v =
      sum_below-le s.next_thread (λ i. lives (s.workers i)) (λ i. load (s.workers i))
        (λ i. ground (arith, v.linked i))

  made_before :
      (s : Slots) (i : ℕ)
      → Holds process base s
      → is_made (s.workers i).phase ≡ true
      → i < s.next_thread
  made_before s i v h = (made_bounds process base v i h).1

  pop_idle-Counts :
      (l : List Idle) (s : Slots)
      → s.idle ≡ l
      → 0 < s.held
      → Holds process base s
      → Counts s
      → Counts (pop_idle limit process l s)
  unfolding pop_idle claim own
  pop_idle-Counts [] s e h v c =
      let all_busy =
        lives-le-load s (subst (λ l. Inv process base l s.next_thread s.workers) e v) in
      record {
        slots = omega (arith, c.slots);
        within = c.within;
        threads = omega (arith, c.slots, c.within, all_busy);
      }
  pop_idle-Counts (top ∷ rest) s e h v c = elim (Bool-cases (top.process == process)) [
    | inr other ↦ rw other (record { slots = c.slots; within = c.within; threads = c.threads })
    | inl own_top ↦
        let l : Inv process base (top ∷ rest) s.next_thread s.workers =
          subst (λ l. Inv process base l s.next_thread s.workers) e v in
        let made : is_made (s.workers top.id).phase ≡ true =
          ground (arith, l.linked top.id, ==_iff top.id top.id) in
        rw own_top (
          put-Counts s top.id (record (s.workers top.id) { claims = (s.workers top.id).claims + 1 })
            s.taken (s.held - 1) rest c (made_before s top.id v made) (ground arith) c.within
            (omega arith))
  ]

  new_thread-Counts : (s : Slots) → 0 < s.spawning → Counts s → Counts (new_thread limit process s)
  unfolding new_thread
  new_thread-Counts s h c =
      let w : Worker = record { phase = starting; mail = true; claims = 0 } in
      let loads = sum_below-suc load s.workers s.next_thread w in
      let lived = sum_below-suc lives s.workers s.next_thread w in
      record {
        slots = omega (arith, c.slots, loads);
        within = c.within;
        threads = omega (arith, c.threads, lived);
      }

  send_to-Counts :
      (i : ℕ) (s : Slots)
      → ltb 0 (s.workers i).claims ≡ true
      → (s.workers i).mail ≡ false
      → Holds process base s
      → Counts s
      → Counts (send_to limit process i (s.workers i) s)
  unfolding send_to
  send_to-Counts i s h m v c =
      let made : is_made (s.workers i).phase ≡ true = ground (arith, v.linked i) in
      elim (Bool-cases (is_alive (s.workers i).phase)) [
        | inl a ↦ rw a (
            put-Counts s i _ s.taken s.held s.idle c (made_before s i v made) (ground arith)
              c.within (omega arith))
        | inr a ↦ absurd (ground (arith, v.linked i))
      ]

  move-Counts :
      (m : Move) (s t : Slots)
      → move limit process m s ≡ some t
      → Holds process base s
      → Counts s
      → Counts t
  unfolding move
  move-Counts acquire s t h v c = guarded_lem process base limit Counts _ h (λ test. record {
    slots = omega (arith, c.slots);
    within = ground arith;
    threads = c.threads;
  })
  move-Counts release s t h v c = guarded_lem process base limit Counts _ h (λ test. record {
    slots = ground (arith, c.slots);
    within = omega (arith, c.within);
    threads = c.threads;
  })
  move-Counts pop s t h v c =
      guarded_lem process base limit Counts _ h
        (λ test. pop_idle-Counts s.idle s refl (ground arith) v c)
  move-Counts spawn s t h v c =
      guarded_lem process base limit Counts _ h (λ test. new_thread-Counts s (ground arith) c)
  move-Counts fail_spawn s t h v c = guarded_lem process base limit Counts _ h (λ test. record {
    slots = ground (arith, c.slots);
    within = omega (arith, c.within);
    threads = ground (arith, c.threads);
  })
  move-Counts (send i) s t h v c =
      guarded_lem process base limit Counts _ h
        (λ test. send_to-Counts i s (ground arith) (ground arith) v c)
  move-Counts (receive i) s t h v c = guarded_lem process base limit Counts _ h (λ test.
      put-Counts s i (record (s.workers i) { phase = running; mail = false }) s.taken s.held s.idle
        c (made_before s i v (ground arith)) (ground arith) c.within (ground arith))
  move-Counts (publish i) s t h v c = guarded_lem process base limit Counts _ h (λ test.
      put-Counts s i (record (s.workers i) { phase = published }) s.taken s.held
        (record { id = i; process = process } ∷ s.idle) c (made_before s i v (ground arith))
        (ground arith) c.within (ground arith))
  move-Counts (crash i) s t h v c = guarded_lem process base limit Counts _ h (λ test.
      let made = made_before s i v (ground arith) in
      (put-Counts s i (record (s.workers i) { phase = ending }) (s.taken - 1) s.held s.idle c made
        (ground (arith, c.slots, sum_below-at s.next_thread i (λ j. load (s.workers j)) made))
        (omega (arith, c.within)) (ground arith)))
  move-Counts (drop_slot i) s t h v c = guarded_lem process base limit Counts _ h (λ test.
      let made = made_before s i v (ground arith) in
      (put-Counts s i (record (s.workers i) { phase = lingering }) (s.taken - 1) s.held s.idle c
        made (ground (arith, c.slots, sum_below-at s.next_thread i (λ j. load (s.workers j)) made))
        (omega (arith, c.within)) (ground arith)))
  move-Counts (time_out i) s t h v c = guarded_lem process base limit Counts _ h (λ test.
      put-Counts s i (record (s.workers i) { phase = expired }) s.taken s.held s.idle c
        (made_before s i v (ground arith)) (ground arith) c.within (ground arith))
  move-Counts (settle i) s t h v c = guarded_lem process base limit Counts _ h (λ test.
      let made = made_before s i v (ground arith) in
      (elim (Bool-cases (is_idle i s.idle)) [
        | inl e ↦ rw e (
            put-Counts s i (record (s.workers i) { phase = ending }) s.taken s.held
              (swap_remove i s.idle) c made (ground arith) c.within (ground arith))
        | inr e ↦ rw e (
            put-Counts s i (record (s.workers i) { phase = committed }) s.taken s.held s.idle c made
              (ground arith) c.within (ground arith))
      ]))
  move-Counts (finish i) s t h v c = guarded_lem process base limit Counts _ h (λ test.
      put-Counts s i (record (s.workers i) { phase = ended }) s.taken s.held s.idle c
        (made_before s i v (ground arith)) (ground arith) c.within (ground arith))

  fresh-Counts : (l : List Idle) → lost ≤ limit → Counts (fresh l lost base)
  fresh-Counts l h = record {
    slots = omega (arith, sum_below-zero base (λ i. 0) (λ i. refl));
    within = h;
    threads = omega (arith, sum_below-zero base (λ i. 0) (λ i. refl));
  }

  Reach-Counts :
      (l : List Idle) {s : Slots}
      → Inherited process base l
      → lost ≤ limit
      → Reach limit process (fresh l lost base) s
      → Counts s
  Reach-Counts l h k here = fresh-Counts l k
  Reach-Counts l h k (step {s} {t} m r e) =
      move-Counts m s t e (Reach-Inv process base limit lost l h r) (Reach-Counts l h k r)

  -- At every point of a run: the slots taken are those that a fork lost, those of the callers that
  -- look for a thread or are about to make one, and those of the threads, with the jobs on their way
  -- to one; they stay within the limit, and so do the threads, idle ones included, that have not begun
  -- to end, with those about to be made. A thread that took itself off the list to end, or whose job
  -- panicked, is not counted.
  pub Reach-counts :
      (l : List Idle) {s : Slots}
      → Inherited process base l
      → lost ≤ limit
      → Reach limit process (fresh l lost base) s
      → (s.taken ≡ lost + s.held + s.spawning + total load s)
        × (s.taken ≤ limit)
        × (total lives s + s.spawning ≤ limit)
  Reach-counts l h k r = let c = Reach-Counts l h k r in (c.slots, c.within, c.threads)
