-- ===== src/Pac/Slots/Sums.antt =====
-- Sums over the threads, and the entries of one thread on the list.
use proxy_watch.Pac.Slots.{Idle, Worker, update, swap_remove, replace, is_idle}
use proxy_watch.Prelude.{
  ℕ, zero, suc, ◌+◌, ◌≤◌, ◌<◌, ◌≡◌, Bool, true, false, ◌&&◌, ◌||◌, List, [], ◌∷◌, ◌==◌, ==_iff,
  refl, arith, All, not, subst, sym, Bool-cases, inl, inr,
}

abbrev pub bit : Bool → ℕ
bit true = 1
bit false = 0

unfoldable pub sum_below : ℕ → (ℕ → ℕ) → ℕ
sum_below zero f = 0
sum_below (suc n) f = sum_below n f + f n

pub sum_below-zero : (n : ℕ) (f : ℕ → ℕ) → ((i : ℕ) → f i ≡ 0) → sum_below n f ≡ 0
unfolding sum_below
sum_below-zero zero f h = refl
sum_below-zero (suc n) f h = omega (arith, sum_below-zero n f h, h n)

pub sum_below-le : (n : ℕ) (f g : ℕ → ℕ) → ((i : ℕ) → f i ≤ g i) → sum_below n f ≤ sum_below n g
unfolding sum_below
sum_below-le zero f g h = omega arith
sum_below-le (suc n) f g h = omega (arith, sum_below-le n f g h, h n)

module _ (f : Worker → ℕ) (ws : ℕ → Worker) (i : ℕ) (w : Worker) where
  -- Past the end an update is not seen.
  sum_below-above :
      (n : ℕ) → n ≤ i → sum_below n (λ j. f (update ws i w j)) ≡ sum_below n (λ j. f (ws j))
  unfolding sum_below
  sum_below-above zero h = refl
  sum_below-above (suc n) h = ground (arith, sum_below-above n)

  pub sum_below-update :
      (n : ℕ)
      → i < n
      → sum_below n (λ j. f (update ws i w j)) + f (ws i) ≡ sum_below n (λ j. f (ws j)) + f w
  unfolding sum_below
  sum_below-update zero h = absurd (omega arith)
  sum_below-update (suc n) h = ground (arith, sum_below-update n, sum_below-above n)

  -- A new thread, behind the others.
  pub sum_below-suc :
      sum_below (i + 1) (λ j. f (update ws i w j)) ≡ sum_below i (λ j. f (ws j)) + f w
  unfolding sum_below
  sum_below-suc =
      let next : suc i ≡ i + 1 = omega arith in
      subst (λ n. sum_below n (λ j. f (update ws i w j)) ≡ sum_below i (λ j. f (ws j)) + f w) next
        (ground (arith, sum_below-above i, ==_iff i i))

pub sum_below-at : (n i : ℕ) (f : ℕ → ℕ) → i < n → f i ≤ sum_below n f
unfolding sum_below
sum_below-at zero i f h = absurd (omega arith)
sum_below-at (suc n) i f h = elim (Bool-cases (i == n)) [
  | inl e ↦ subst (λ j. f j ≤ sum_below n f + f n) (sym ((==_iff i n).0 e)) (omega arith)
  | inr e ↦ omega (arith, sum_below-at n i f (ground arith))
]

module _ (process : ℕ) where
  abbrev is_own : ℕ → Idle → Bool
  is_own i e = e.id == i && e.process == process

  -- How often a thread of this process stands on the list.
  unfoldable pub own : ℕ → List Idle → ℕ
  own i [] = 0
  own i (e ∷ l) = bit (is_own i e) + own i l

  -- Every entry with this id is of this process.
  abbrev pub Native : ℕ → List Idle → Type 0
  Native i = All (λ e. (not (e.id == i) || e.process == process) ≡ true)

  replace-own :
      (i j : ℕ) (top : Idle) (l : List Idle)
      → is_idle i l ≡ true
      → Native i l
      → own j (replace i top l) + bit (j == i) ≡ own j l + bit (is_own j top)
  unfolding own replace
  replace-own i j top [] h k = absurd (cc h)
  replace-own i j top (e ∷ l) h k =
      ground (arith, replace-own i j top l, ==_iff e.id i, ==_iff e.id j, ==_iff j i)

  pub swap_remove-own :
      (i j : ℕ) (l : List Idle)
      → is_idle i l ≡ true
      → Native i l
      → own j (swap_remove i l) + bit (j == i) ≡ own j l
  unfolding own swap_remove
  swap_remove-own i j [] h k = absurd (cc h)
  swap_remove-own i j (top ∷ l) h k =
      ground (arith, replace-own i j top l, ==_iff top.id i, ==_iff top.id j, ==_iff j i)

  replace-All :
      (P : Idle → Type 0) (i : ℕ) (top : Idle) (l : List Idle)
      → P top
      → All P l
      → All P (replace i top l)
  unfolding replace
  replace-All P i top [] p h = tt
  replace-All P i top (e ∷ l) p h = ground (arith, replace-All P i top l p)

  pub swap_remove-All :
      (P : Idle → Type 0) (i : ℕ) (l : List Idle) → All P l → All P (swap_remove i l)
  unfolding swap_remove
  swap_remove-All P i [] h = tt
  swap_remove-All P i (top ∷ l) h = ground (arith, replace-All P i top l)

  pub own-not_idle : (i : ℕ) (l : List Idle) → is_idle i l ≡ false → own i l ≡ 0
  unfolding own
  own-not_idle i [] h = refl
  own-not_idle i (e ∷ l) h = ground (arith, own-not_idle i l)
