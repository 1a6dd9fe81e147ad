-- ===== src/Pac/Time/Eras.antt =====
-- The years of an era of 400 years, counted in days.
use proxy_watch.Pac.Time.{from_day_of_year, from_day_of_era, from_year, year_of_era}
use proxy_watch.Pac.Time.Years.{is_leap}
use proxy_watch.Prelude.{ℕ, ◌+◌, ◌-◌, ◌*◌, ◌/◌, ◌≤◌, ◌<◌, ◌≡◌, if◌then◌else◌, ap, ◌∙◌, arith}
use proxy_watch.Prelude.Integer.{ℤ, pos, negsuc, ◌+ℤ◌, ◌*ℤ◌}

-- The days of an era before a year.
abbrev pub days_before : ℕ → ℕ
days_before y = y * 365 + y / 4 - y / 100

-- The days of the year that begins in March, less one.
abbrev pub last_day : ℕ → ℕ
last_day y = if is_leap (pos (y + 1)) then 365 else 364

year_in_era :
    (d : ℕ) → d < 146097 → year_of_era (pos d) ≡ pos ((d - d / 1460 + d / 36524 - d / 146096) / 365)
unfolding year_of_era
year_in_era d h = ground arith

pub in_era : (y r : ℕ) → y < 400 → r ≤ last_day y → days_before y + r < 146097
in_era y r h l = ground arith

year_of_days :
    (y r : ℕ)
    → y < 400
    → r ≤ last_day y
    → let d = days_before y + r in (d - d / 1460 + d / 36524 - d / 146096) / 365 ≡ y
year_of_days y r h l = ground arith

year_of_era-days_before :
    (y r : ℕ) → y < 400 → r ≤ last_day y → year_of_era (pos (days_before y + r)) ≡ pos y
year_of_era-days_before y r h l =
    year_in_era (days_before y + r) (in_era y r h l) ∙ ap pos (year_of_days y r h l)

from_days :
    (e : ℤ) (y r : ℕ)
    → from_year e (pos (days_before y + r)) (pos y) ≡ from_day_of_year (pos y +ℤ e *ℤ 400) (pos r)
from_days e y r = ap (from_day_of_year _) (ground arith)

pub from_day_of_era-days_before :
    (e : ℤ) (y r : ℕ)
    → y < 400
    → r ≤ last_day y
    → from_day_of_era e (pos (days_before y + r)) ≡ from_day_of_year (pos y +ℤ e *ℤ 400) (pos r)
from_day_of_era-days_before e y r h l = rw (year_of_era-days_before y r h l) (from_days e y r)

pub next_year : (e : ℤ) (y : ℕ) → y < 400 → pos y +ℤ e *ℤ 400 +ℤ pos 1 ≡ pos (y + 1) +ℤ e *ℤ 400
next_year (pos e) y h = ground arith
next_year (negsuc e) y h = ground arith

pub next_era : (e : ℤ) → pos 400 +ℤ e *ℤ 400 ≡ pos 0 +ℤ (e +ℤ pos 1) *ℤ 400
next_era (pos e) = ground arith
next_era (negsuc e) = ground arith

pub is_leap-next :
    (e : ℤ) (y : ℕ) → y < 400 → is_leap (pos (y + 1) +ℤ e *ℤ 400) ≡ is_leap (pos (y + 1))
is_leap-next (pos e) y h = ground arith
is_leap-next (negsuc e) y h = ground arith
