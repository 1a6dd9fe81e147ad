-- ===== src/Pac/Slots/Invariant.antt =====
-- src/pac/budget.rs: where a thread can be found, at every point of a run.
use proxy_watch.Pac.Slots.{
  Idle, Phase, absent, starting, running, published, lingering, expired, committed, ending, ended,
  Worker, Slots, Move, acquire, release, pop, spawn, fail_spawn, send, receive, publish, crash,
  drop_slot, time_out, settle, finish, update, is_alive, set_phase, swap_remove, is_idle, claim,
  pop_idle, new_thread, send_to, guarded, move, Reach, here, step, fresh, is_phase,
}
use proxy_watch.Pac.Slots.Sums.{bit, own, Native, swap_remove-own, swap_remove-All}
use proxy_watch.Prelude.{
  ℕ, ◌+◌, ◌≤◌, ◌<◌, ◌≡◌, Bool, true, false, not, ◌&&◌, ◌||◌, some, List, [], ◌∷◌, ltb, ◌==◌, ==_iff,
  if◌then◌else◌, refl, arith, All, Bool-cases, inl, inr, subst,
}

-- The places where a thread waits to be found: the list, a caller that took it off, its channel.
abbrev pub spots : Phase → ℕ
spots absent = 0
spots starting = 1
spots running = 0
spots published = 1
spots lingering = 1
spots expired = 1
spots committed = 1
spots ending = 0
spots ended = 0

-- The thread is there and has not begun to end.
abbrev pub is_serving : Phase → Bool
is_serving ending = false
is_serving p = is_alive p

-- The thread has been made.
abbrev pub is_made : Phase → Bool
is_made absent = false
is_made _ = true

module _ (process base : ℕ) where
  abbrev pub found : List Idle → Worker → ℕ → ℕ
  found l w i = own process i l + (w.claims + bit w.mail)

  abbrev pub is_native : Idle → Bool
  is_native e = e.process == process || ltb e.id base

  -- Of the list, the number of the next thread, and the threads: a thread is found in as many places
  -- as it waits in; those not made yet are `absent`; and an entry of another process has a number
  -- below those of this one.
  pub record Inv (l : List Idle) (next : ℕ) (ws : ℕ → Worker) : Type 0 where
    pub linked : (i : ℕ) → found l (ws i) i ≡ spots (ws i).phase
    pub above : (i : ℕ) → next ≤ i → (ws i).phase ≡ absent
    pub below : (i : ℕ) → i < base → (ws i).phase ≡ absent
    pub foreign : All (λ e. is_native e ≡ true) l
    pub based : base ≤ next

  abbrev pub Holds : Slots → Type 0
  Holds s = Inv s.idle s.next_thread s.workers

  based-Native :
      (i : ℕ) (l : List Idle) → base ≤ i → All (λ e. is_native e ≡ true) l → Native process i l
  based-Native i [] b h = tt
  based-Native i (e ∷ l) b h = (ground (arith, ==_iff e.id i), based-Native i l b h.1)

  module _ {l : List Idle} {next : ℕ} {ws : ℕ → Worker} (v : Inv l next ws) (i : ℕ) where
    pub made_bounds : is_made (ws i).phase ≡ true → (base ≤ i) × (i < next)
    made_bounds h = (ground (arith, v.below i), ground (arith, v.above i))

    -- Another worker in the place of one, and another list.
    at-Inv :
        (w : Worker) (l' : List Idle)
        → is_made (ws i).phase ≡ true
        → found l' w i ≡ spots w.phase
        → ((j : ℕ) → (i == j) ≡ false → own process j l' ≡ own process j l)
        → All (λ e. is_native e ≡ true) l'
        → Inv l' next (update ws i w)
    at-Inv w l' h e same f = record {
      linked = λ j. ground (arith, v.linked j, same j, ==_iff i j);
      above = λ j a. ground (arith, v.above j, made_bounds h, ==_iff i j);
      below = λ j a. ground (arith, v.below j, made_bounds h, ==_iff i j);
      foreign = f;
      based = v.based;
    }

    -- Another worker, with the list as it is.
    put-Inv :
        (w : Worker)
        → is_made (ws i).phase ≡ true
        → found l w i ≡ spots w.phase
        → Inv l next (update ws i w)
    put-Inv w h e = at-Inv w l h e (λ j n. refl) v.foreign

  claim-Inv :
      (s : Slots) (top : Idle) (rest : List Idle)
      → s.idle ≡ top ∷ rest
      → (top.process == process) ≡ true
      → Holds s
      → Holds (claim top.id rest s)
  unfolding claim own
  claim-Inv s top rest e own_top v =
      let l : Inv (top ∷ rest) s.next_thread s.workers =
        subst (λ l. Inv l s.next_thread s.workers) e v in
      at-Inv l top.id (record (s.workers top.id) { claims = (s.workers top.id).claims + 1 }) rest
        (ground (arith, l.linked top.id, ==_iff top.id top.id))
        (ground (arith, l.linked top.id, ==_iff top.id top.id)) (λ j n. ground arith) l.foreign.1

  new_thread-Inv : (limit : ℕ) (s : Slots) → Holds s → Holds (new_thread limit process s)
  unfolding new_thread
  new_thread-Inv limit s v = record {
    linked = λ j. ground (arith, v.linked j, v.above j, ==_iff s.next_thread j);
    above = λ j a. ground (arith, v.above j, ==_iff s.next_thread j);
    below = λ j a. ground (arith, v.below j, v.based, ==_iff s.next_thread j);
    foreign = v.foreign;
    based = omega (arith, v.based);
  }

  module _ (limit : ℕ) where
    -- What a move leads to, where it can be made.
    pub guarded_lem :
        (P : Slots → Type 0) (test : Bool) {s t : Slots}
        → guarded limit process test s ≡ some t
        → (test ≡ true → P s)
        → P t
    guarded_lem P true h made = subst P (ground (arith, h)) (made refl)
    guarded_lem P false h made = absurd (cc h)

    phase_lem : (a b : Phase) → is_phase limit process a b ≡ true → b ≡ a
    phase_lem a b h = ground arith

    pop_idle-Inv :
        (l : List Idle) (s : Slots) → s.idle ≡ l → Holds s → Holds (pop_idle limit process l s)
    unfolding pop_idle own
    pop_idle-Inv [] s e v = v
    pop_idle-Inv (top ∷ rest) s e v = elim (Bool-cases (top.process == process)) [
      | inl own_top ↦ rw own_top (claim-Inv s top rest e own_top v)
      | inr other ↦
          let l : Inv (top ∷ rest) s.next_thread s.workers =
            subst (λ l. Inv l s.next_thread s.workers) e v in
          rw other (record {
            linked = λ j. ground (arith, l.linked j);
            above = l.above;
            below = l.below;
            foreign = l.foreign.1;
            based = l.based;
          })
    ]

    publish-Inv :
        (i : ℕ) (s : Slots)
        → (s.workers i).phase ≡ running
        → Holds s
        → Holds (record (set_phase i published s) {
          idle = record { id = i; process = process } ∷ s.idle;
        })
    unfolding own
    publish-Inv i s p v =
        at-Inv v i (record (s.workers i) { phase = published })
          (record { id = i; process = process } ∷ s.idle) (rw p refl)
          (ground (arith, v.linked i, ==_iff i i, ==_iff process process)) (λ j n. ground arith)
          (ground (arith, ==_iff process process), v.foreign)

    send_to-Inv :
        (i : ℕ) (s : Slots)
        → ltb 0 (s.workers i).claims ≡ true
        → (s.workers i).mail ≡ false
        → Holds s
        → Holds (send_to limit process i (s.workers i) s)
    unfolding send_to
    send_to-Inv i s h m v = elim (Bool-cases (is_alive (s.workers i).phase)) [
      | inl a ↦ rw a (put-Inv v i _ (ground (arith, v.linked i)) (ground (arith, v.linked i)))
      | inr a ↦ absurd (ground (arith, v.linked i))
    ]

    settle-Inv :
        (i : ℕ) (s : Slots)
        → (s.workers i).phase ≡ expired
        → Holds s
        → Holds (
            if is_idle i s.idle
            then record (set_phase i ending s) { idle = swap_remove i s.idle }
            else set_phase i committed s)
    settle-Inv i s p v =
        let b = made_bounds v i (rw p refl) in
        let native = based-Native i s.idle b.0 v.foreign in
        elim (Bool-cases (is_idle i s.idle)) [
          | inl h ↦ rw h (
              at-Inv v i (record (s.workers i) { phase = ending }) (swap_remove i s.idle)
                (rw p refl)
                (ground (arith, v.linked i, swap_remove-own process i i s.idle, ==_iff i i))
                (λ j n. ground (arith, swap_remove-own process i j s.idle, ==_iff i j, ==_iff j i))
                (swap_remove-All process (λ e. is_native e ≡ true) i s.idle v.foreign))
          | inr h ↦ rw h (
              put-Inv v i (record (s.workers i) { phase = committed }) (rw p refl)
                (ground (arith, v.linked i)))
        ]

    -- Every move keeps it.
    pub move-Inv : (m : Move) (s t : Slots) → move limit process m s ≡ some t → Holds s → Holds t
    unfolding move
    move-Inv acquire s t h v = guarded_lem Holds _ h (λ _. v)
    move-Inv release s t h v = guarded_lem Holds _ h (λ _. v)
    move-Inv pop s t h v = guarded_lem Holds _ h (λ _. (pop_idle-Inv s.idle s refl v))
    move-Inv spawn s t h v = guarded_lem Holds _ h (λ _. (new_thread-Inv limit s v))
    move-Inv fail_spawn s t h v = guarded_lem Holds _ h (λ _. v)
    move-Inv (send i) s t h v =
        guarded_lem Holds _ h (λ test. (send_to-Inv i s (ground arith) (ground arith) v))
    move-Inv (receive i) s t h v =
        guarded_lem Holds _ h (λ test. (put-Inv v i _ (ground arith) (ground (arith, v.linked i))))
    move-Inv (publish i) s t h v =
        guarded_lem Holds _ h
          (λ test. (publish-Inv i s (phase_lem running (s.workers i).phase test) v))
    move-Inv (crash i) s t h v =
        guarded_lem Holds _ h (λ test. (put-Inv v i _ (ground arith) (ground (arith, v.linked i))))
    move-Inv (drop_slot i) s t h v =
        guarded_lem Holds _ h (λ test. (put-Inv v i _ (ground arith) (ground (arith, v.linked i))))
    move-Inv (time_out i) s t h v =
        guarded_lem Holds _ h (λ test. (put-Inv v i _ (ground arith) (ground (arith, v.linked i))))
    move-Inv (settle i) s t h v = guarded_lem Holds _ h (λ test. (settle-Inv i s (ground arith) v))
    move-Inv (finish i) s t h v =
        guarded_lem Holds _ h (λ test. (put-Inv v i _ (ground arith) (ground (arith, v.linked i))))

  -- The entries that a fork left: of another process, and numbered before this one.
  abbrev pub Inherited : List Idle → Type 0
  Inherited = All (λ e. (not (e.process == process) && ltb e.id base) ≡ true)

  Inherited-own : (l : List Idle) (i : ℕ) → Inherited l → own process i l ≡ 0
  unfolding own
  Inherited-own [] i h = refl
  Inherited-own (e ∷ l) i h = ground (arith, Inherited-own l i)

  Inherited-native : (l : List Idle) → Inherited l → All (λ e. is_native e ≡ true) l
  Inherited-native [] h = tt
  Inherited-native (e ∷ l) h = (ground arith, Inherited-native l h.1)

  pub fresh-Inv : (l : List Idle) (lost : ℕ) → Inherited l → Holds (fresh l lost base)
  fresh-Inv l lost h = record {
    linked = λ i. ground (arith, Inherited-own l i h);
    above = λ i a. refl;
    below = λ i a. refl;
    foreign = Inherited-native l h;
    based = omega arith;
  }

  -- At every point of a run, so.
  pub Reach-Inv :
      (limit lost : ℕ) (l : List Idle) {s : Slots}
      → Inherited l
      → Reach limit process (fresh l lost base) s
      → Holds s
  Reach-Inv limit lost l h here = fresh-Inv l lost h
  Reach-Inv limit lost l h (step {s} {t} m r e) =
      move-Inv limit m s t e (Reach-Inv limit lost l h r)

  abbrev pub is_waiting : Phase → Bool
  is_waiting p = is_serving p && not (is_phase 0 process running p)

  -- At every point of a run: a thread that stands on the list, or that a caller took off it and has
  -- not yet sent to, or that has a job in its channel, is in exactly one of these places; it has not
  -- begun to end, and it runs no job. So a send finds its receiver and an empty channel, and the job sent is
  -- one that the thread takes.
  pub Reach-found :
      (limit lost : ℕ) (l : List Idle) {s : Slots} (i : ℕ)
      → Inherited l
      → Reach limit process (fresh l lost base) s
      → 0 < found s.idle (s.workers i) i
      → (found s.idle (s.workers i) i ≡ 1) × (is_waiting (s.workers i).phase ≡ true)
  Reach-found limit lost l i h r found =
      let v = Reach-Inv limit lost l h r in ground (arith, v.linked i)
