-- ===== src/Pac/Slots.antt =====
-- src/pac/budget.rs: the slots of the evaluations and the threads that serve them. The threads, and
-- the callers that hold a slot, take turns; a move is what one of them does between two locks or
-- at a channel. The clock is left out: a wait for a slot or for work may end at any time.
pub mod Sums
pub mod Invariant
pub mod Counts
use proxy_watch.Prelude.{
  ℕ, zero, suc, ◌+◌, ◌-◌, ◌≡◌, Bool, true, false, not, ◌&&◌, ◌||◌, Option, none, some, List, [],
  ◌∷◌, ltb, ◌==◌, if◌then◌else◌, any, is_nil,
}

-- An idle thread, with the process that it runs in.
pub record Idle : Type 0 where
  pub id : ℕ
  pub process : ℕ

-- Where a thread stands: it has not been made; it was made with a job; it runs one; it joined the
-- idle ones and still holds the slot; it waits for work; its wait ran out; it waits for the job
-- that is on the way; it took itself off the list or its job panicked, and it is about to end; it
-- ended.
pub data Phase : Type 0 where
  absent starting running published lingering expired committed ending ended : Phase

-- A thread: whether a job is in its channel, and how many callers took it off the list and are
-- about to send.
pub record Worker : Type 0 where
  pub phase : Phase
  pub mail : Bool
  pub claims : ℕ

pub record Slots : Type 0 where
  pub taken : ℕ
  pub idle : List Idle
  -- the callers that hold a slot and look for a thread, and those that found none idle
  pub held : ℕ
  pub spawning : ℕ
  pub next_thread : ℕ
  pub workers : ℕ → Worker

pub data Move : Type 0 where
  acquire release pop spawn fail_spawn : Move
  send receive publish crash drop_slot time_out settle finish : ℕ → Move

abbrev pub update : (ℕ → Worker) → ℕ → Worker → ℕ → Worker
update ws i w j = if i == j then w else ws j

-- The receiver of the channel is there as long as the thread is.
abbrev pub is_alive : Phase → Bool
is_alive absent = false
is_alive ended = false
is_alive starting = true
is_alive running = true
is_alive published = true
is_alive lingering = true
is_alive expired = true
is_alive committed = true
is_alive ending = true

-- The thread waits at its channel.
abbrev receives : Phase → Bool
receives starting = true
receives lingering = true
receives committed = true
receives _ = false

abbrev pub set_phase : ℕ → Phase → Slots → Slots
set_phase i phase s = record s {
  workers = update s.workers i (record (s.workers i) { phase = phase });
}

-- `Vec::swap_remove` at the entry of a thread, if there is one; the head is the last entry.
replace : ℕ → Idle → List Idle → List Idle
replace id top [] = []
replace id top (e ∷ rest) = if e.id == id then top ∷ rest else e ∷ replace id top rest

unfoldable pub swap_remove : ℕ → List Idle → List Idle
unfolding replace
swap_remove id [] = []
swap_remove id (top ∷ rest) = if top.id == id then rest else replace id top rest

abbrev pub is_idle : ℕ → List Idle → Bool
is_idle id l = any (λ e. e.id == id) l

-- A caller takes a thread off the list.
claim : ℕ → List Idle → Slots → Slots
claim i rest s = record s {
  idle = rest;
  held = s.held - 1;
  workers = update s.workers i (record (s.workers i) { claims = (s.workers i).claims + 1 });
}

module _ (limit process : ℕ) where
  -- `dispatch`, up to the test of the process.
  pop_idle : List Idle → Slots → Slots
  pop_idle [] s = record s { held = s.held - 1; spawning = s.spawning + 1 }
  pop_idle (top ∷ rest) s =
      if top.process == process then claim top.id rest s else record s { idle = rest }

  new_thread : Slots → Slots
  new_thread s = record s {
    spawning = s.spawning - 1;
    next_thread = s.next_thread + 1;
    workers = update s.workers s.next_thread (record { phase = starting; mail = true; claims = 0 });
  }

  -- A caller sends its job to a thread that it took off the list. One that has ended gives the job
  -- back.
  send_to : ℕ → Worker → Slots → Slots
  send_to i w s =
      if is_alive w.phase
      then record s {
        workers = update s.workers i (record w { mail = true; claims = w.claims - 1 });
      }
      else record s {
        held = s.held + 1;
        workers = update s.workers i (record w { claims = w.claims - 1 });
      }

  abbrev guarded : Bool → Slots → Option Slots
  guarded test s = if test then some s else none

  abbrev is_phase : Phase → Phase → Bool
  is_phase running running = true
  is_phase published published = true
  is_phase lingering lingering = true
  is_phase expired expired = true
  is_phase ending ending = true
  is_phase _ _ = false

  -- A move, where it can be made.
  unfoldable pub move : Move → Slots → Option Slots
  unfolding pop_idle claim new_thread send_to
  move acquire s = guarded (ltb s.taken limit) (record s { taken = s.taken + 1; held = s.held + 1 })
  move release s = guarded (ltb 0 s.held) (record s { taken = s.taken - 1; held = s.held - 1 })
  move pop s = guarded (ltb 0 s.held) (pop_idle s.idle s)
  move spawn s = guarded (ltb 0 s.spawning) (new_thread s)
  move fail_spawn s =
      guarded (ltb 0 s.spawning) (record s { taken = s.taken - 1; spawning = s.spawning - 1 })
  move (send i) s = let w = s.workers i in guarded (ltb 0 w.claims && not w.mail) (send_to i w s)
  move (receive i) s =
      let w = s.workers i in
      guarded (receives w.phase && w.mail)
        (record s { workers = update s.workers i (record w { phase = running; mail = false }) })
  move (publish i) s =
      guarded (is_phase running (s.workers i).phase)
        (record (set_phase i published s) { idle = record { id = i; process = process } ∷ s.idle })
  move (crash i) s =
      guarded (is_phase running (s.workers i).phase)
        (record (set_phase i ending s) { taken = s.taken - 1 })
  move (drop_slot i) s =
      guarded (is_phase published (s.workers i).phase)
        (record (set_phase i lingering s) { taken = s.taken - 1 })
  move (time_out i) s =
      let w = s.workers i in
      guarded (is_phase lingering w.phase && not w.mail) (set_phase i expired s)
  move (settle i) s = guarded (is_phase expired (s.workers i).phase) (
      if is_idle i s.idle
      then record (set_phase i ending s) { idle = swap_remove i s.idle }
      else set_phase i committed s)
  move (finish i) s = guarded (is_phase ending (s.workers i).phase) (set_phase i ended s)

  -- A run of any moves in any order, from a list that a fork may have left, and no thread.
  pub data Reach (start : Slots) : Slots → Type 0 where
    here : Reach start start
    step : {s t : Slots} (m : Move) → Reach start s → move m s ≡ some t → Reach start t

-- The slots of a process that made no thread yet. What a fork left: the list, and the slots of the
-- threads that are not there any more.
abbrev pub fresh : List Idle → ℕ → ℕ → Slots
fresh inherited lost next = record {
  taken = lost;
  idle = inherited;
  held = 0;
  spawning = 0;
  next_thread = next;
  workers = λ i. record { phase = absent; mail = false; claims = 0 };
}
