-- ===== src/Pac/Time/Days.antt =====
-- The days of an era, one after the other.
use proxy_watch.Pac.Time.{from_day_of_year, from_day_of_era}
use proxy_watch.Pac.Time.Years.{
  is_leap, next_day, spring_step, year_step, winter_step, leap_step, common_turn, leap_turn,
}
use proxy_watch.Pac.Time.Eras.{
  days_before, last_day, from_day_of_era-days_before, next_year, next_era, is_leap-next,
}
use proxy_watch.Prelude.{
  ℕ, ◌+◌, ◌-◌, ◌/◌, ◌≤◌, ◌<◌, ◌≡◌, ltb, ◌==◌, ap, ◌∙◌, sym, subst, arith, inl, inr, Bool-cases,
}
use proxy_watch.Prelude.Integer.{ℤ, pos, ◌+ℤ◌, ◌*ℤ◌}

year_at : ℤ → ℕ → ℤ
year_at e y = pos y +ℤ e *ℤ 400

is_leap-year_at : (e : ℤ) (y : ℕ) → y < 400 → is_leap (year_at e y +ℤ pos 1) ≡ is_leap (pos (y + 1))
unfolding year_at
is_leap-year_at e y h = ap is_leap (next_year e y h) ∙ is_leap-next e y h

-- Within the first 364 days.
plain_step :
    (y : ℤ) (r : ℕ)
    → r < 364
    → next_day (from_day_of_year y (pos r)) ≡ from_day_of_year y (pos (r + 1))
plain_step y r h = elim (Bool-cases (ltb r 305)) [
  | inl early ↦ spring_step y r (ground arith)
  | inr late ↦ elim (Bool-cases (r == 305)) [
    | inl turn ↦
        subst (λ n. next_day (from_day_of_year y (pos n)) ≡ from_day_of_year y (pos (n + 1)))
          (sym (ground arith)) (year_step y)
    | inr past ↦ winter_step y r (ground arith) (ground arith)
  ]
]

in_year :
    (e : ℤ) (y r : ℕ)
    → y < 400
    → r < last_day y
    → next_day (from_day_of_year (year_at e y) (pos r))
      ≡ from_day_of_year (year_at e y) (pos (r + 1))
in_year e y r h l = elim (Bool-cases (ltb r 364)) [
  | inl early ↦ plain_step (year_at e y) r (ground arith)
  | inr last ↦
      subst
        (λ n.
          next_day (from_day_of_year (year_at e y) (pos n))
          ≡ from_day_of_year (year_at e y) (pos (n + 1)))
        (sym (ground arith)) (leap_step (year_at e y) (is_leap-year_at e y h ∙ ground arith))
]

turn_of_year :
    (e : ℤ) (y : ℕ)
    → y < 400
    → next_day (from_day_of_year (year_at e y) (pos (last_day y)))
      ≡ from_day_of_year (year_at e y +ℤ pos 1) (pos 0)
turn_of_year e y h = elim (Bool-cases (is_leap (pos (y + 1)))) [
  | inl leap ↦ rw leap (leap_turn (year_at e y) (is_leap-year_at e y h ∙ leap))
  | inr common ↦ rw common (common_turn (year_at e y) (is_leap-year_at e y h ∙ common))
]

-- A day of an era, by its year and the day of it.
located :
    (d : ℕ)
    → d < 146097
    → (y : ℕ) × (r : ℕ) × (y < 400) × (r ≤ last_day y) × (d ≡ days_before y + r)
located d h =
    let y = (d - d / 1460 + d / 36524 - d / 146096) / 365 in
    (y, d - days_before y, omega arith, ground arith, omega arith)

last_of_year : (y : ℕ) → y < 399 → days_before y + last_day y + 1 ≡ days_before (y + 1) + 0
last_of_year y h = ground arith

step_in_year :
    (e : ℤ) (y r : ℕ)
    → y < 400
    → r < last_day y
    → next_day (from_day_of_era e (pos (days_before y + r)))
      ≡ from_day_of_era e (pos (days_before y + (r + 1)))
unfolding year_at
step_in_year e y r h l =
    ap next_day (from_day_of_era-days_before e y r h (omega (arith, l)))
    ∙ in_year e y r h l
    ∙ sym (from_day_of_era-days_before e y (r + 1) h (omega (arith, l)))

step_to_year :
    (e : ℤ) (y : ℕ)
    → y < 399
    → next_day (from_day_of_era e (pos (days_before y + last_day y)))
      ≡ from_day_of_era e (pos (days_before (y + 1) + 0))
unfolding year_at
step_to_year e y h =
    ap next_day (from_day_of_era-days_before e y (last_day y) (omega arith) (omega arith))
    ∙ turn_of_year e y (omega arith)
    ∙ ap (λ y. from_day_of_year y (pos 0)) (next_year e y (omega arith))
    ∙ sym (from_day_of_era-days_before e (y + 1) 0 (omega arith) (omega arith))

step_located :
    (e : ℤ) (y r : ℕ)
    → y < 400
    → r ≤ last_day y
    → days_before y + r < 146096
    → next_day (from_day_of_era e (pos (days_before y + r)))
      ≡ from_day_of_era e (pos (days_before y + r + 1))
step_located e y r h l b = elim (Bool-cases (ltb r (last_day y))) [
  | inl within ↦
      step_in_year e y r h (ground arith) ∙ ap (λ n. from_day_of_era e (pos n)) (omega arith)
  | inr last ↦
      subst
        (λ n.
          next_day (from_day_of_era e (pos (days_before y + n)))
          ≡ from_day_of_era e (pos (days_before y + n + 1)))
        (ground arith)
        (step_to_year e y (ground arith)
          ∙ ap (λ n. from_day_of_era e (pos n)) (sym (last_of_year y (ground arith))))
]

pub in_era_step :
    (e : ℤ) (d : ℕ)
    → d < 146096
    → next_day (from_day_of_era e (pos d)) ≡ from_day_of_era e (pos (d + 1))
in_era_step e d h =
    let (y, r, b, l, at) = located d (omega arith) in
    subst (λ n. next_day (from_day_of_era e (pos n)) ≡ from_day_of_era e (pos (n + 1))) (sym at)
      (step_located e y r b l (omega (arith, at, h)))

pub turn_of_era :
    (e : ℤ) → next_day (from_day_of_era e (pos 146096)) ≡ from_day_of_era (e +ℤ pos 1) (pos 0)
unfolding year_at
turn_of_era e =
    ap next_day (from_day_of_era-days_before e 399 365 (omega arith) (omega arith))
    ∙ turn_of_year e 399 (omega arith)
    ∙ ap (λ y. from_day_of_year y (pos 0)) (next_year e 399 (omega arith) ∙ next_era e)
    ∙ sym (from_day_of_era-days_before (e +ℤ pos 1) 0 0 (omega arith) (omega arith))
