-- ===== src/Pac/Time/Years.antt =====
-- The days of a year that begins in March, and the years of an era.
use proxy_watch.Pac.Time.{Date, date, from_day_of_year, year_of_era, civil_from_days}
use proxy_watch.Prelude.{
  ℕ, ◌+◌, ◌-◌, ◌*◌, ◌/◌, ◌≤◌, ◌<◌, ◌≡◌, Bool, true, false, not, ◌&&◌, ◌||◌, ◌==◌, if◌then◌else◌,
  refl, arith,
}
use proxy_watch.Prelude.Integer.{ℤ, pos, negsuc, ◌+ℤ◌, rem_euclid, le_int}

-- The Gregorian calendar.
abbrev pub is_leap : ℤ → Bool
is_leap y = (rem_euclid y 4 == 0 && not (rem_euclid y 100 == 0)) || rem_euclid y 400 == 0

abbrev pub days_in_month : ℤ → ℤ → ℕ
days_in_month y (pos m) =
    if m == 2
    then (if is_leap y then 29 else 28)
    else if m == 4 || m == 6 || m == 9 || m == 11
    then 30
    else 31
days_in_month y (negsuc _) = 31

unfoldable pub next_day : Date → Date
next_day (date y m d) =
    if le_int (d +ℤ pos 1) (pos (days_in_month y m))
    then date y m (d +ℤ pos 1)
    else if le_int (m +ℤ pos 1) (pos 12)
    then date y (m +ℤ pos 1) (pos 1)
    else date (y +ℤ pos 1) (pos 1) (pos 1)

pub epoch : civil_from_days (pos 0) ≡ date (pos 1970) (pos 1) (pos 1)
unfolding civil_from_days from_day_of_year year_of_era
epoch = refl

abbrev month_of : ℕ → ℕ
month_of r = (r * 5 + 2) / 153

abbrev day_of : ℕ → ℕ
day_of r = r - (month_of r * 153 + 2) / 5 + 1

pub spring :
    (y : ℤ) (r : ℕ)
    → r < 306
    → from_day_of_year y (pos r) ≡ date y (pos (month_of r + 3)) (pos (day_of r))
unfolding from_day_of_year
spring y r h = ground arith

pub winter :
    (y : ℤ) (r : ℕ)
    → 306 ≤ r
    → r < 366
    → from_day_of_year y (pos r) ≡ date (y +ℤ pos 1) (pos (month_of r - 9)) (pos (day_of r))
unfolding from_day_of_year
winter y r l h = ground arith

-- The next day within March to December, from December to January, and up to the end of February.
pub spring_step :
    (y : ℤ) (r : ℕ)
    → r < 305
    → next_day (from_day_of_year y (pos r)) ≡ from_day_of_year y (pos (r + 1))
unfolding next_day
spring_step y r h = rw (spring y r (omega arith), spring y (r + 1) (omega arith)) (ground arith)

pub year_step : (y : ℤ) → next_day (from_day_of_year y (pos 305)) ≡ from_day_of_year y (pos 306)
unfolding next_day from_day_of_year
year_step y = refl

pub winter_step :
    (y : ℤ) (r : ℕ)
    → 306 ≤ r
    → r < 364
    → next_day (from_day_of_year y (pos r)) ≡ from_day_of_year y (pos (r + 1))
unfolding next_day
winter_step y r l h =
    rw (winter y r l (omega arith), winter y (r + 1) (omega arith) (omega arith)) (ground arith)

pub leap_step :
    (y : ℤ)
    → is_leap (y +ℤ pos 1) ≡ true
    → next_day (from_day_of_year y (pos 364)) ≡ from_day_of_year y (pos 365)
unfolding next_day from_day_of_year
leap_step y h = rw h refl

pub common_turn :
    (y : ℤ)
    → is_leap (y +ℤ pos 1) ≡ false
    → next_day (from_day_of_year y (pos 364)) ≡ from_day_of_year (y +ℤ pos 1) (pos 0)
unfolding next_day from_day_of_year
common_turn y h = rw h refl

pub leap_turn :
    (y : ℤ)
    → is_leap (y +ℤ pos 1) ≡ true
    → next_day (from_day_of_year y (pos 365)) ≡ from_day_of_year (y +ℤ pos 1) (pos 0)
unfolding next_day from_day_of_year
leap_turn y h = rw h refl
