-- ===== src/Pac/Time/Calendar.antt =====
-- The calendar, day by day.
use proxy_watch.Pac.Time.{Date, date, from_day_of_era, era_of, civil_from_days}
use proxy_watch.Pac.Time.Years.{next_day, epoch}
use proxy_watch.Pac.Time.Days.{in_era_step, turn_of_era}
use proxy_watch.Prelude.{◌+◌, ◌<◌, ◌≡◌, false, ltb, ap, ◌∙◌, sym, arith, inl, inr, Bool-cases}
use proxy_watch.Prelude.Integer.{ℤ, pos, negsuc, ◌+ℤ◌, ◌-ℤ◌, ◌*ℤ◌, div_euclid, rem_euclid}

-- The day `x` counted from the first of March of the year 0.
counted : ℤ → Date
counted x = from_day_of_era (era_of x) (x -ℤ era_of x *ℤ 146097)

era_of-div_euclid : (x : ℤ) → era_of x ≡ div_euclid x 146097
era_of-div_euclid (pos n) = ground arith
era_of-div_euclid (negsuc n) = ground arith

rest_of_era : (x : ℤ) → x -ℤ div_euclid x 146097 *ℤ 146097 ≡ pos (rem_euclid x 146097)
rest_of_era (pos n) = ground arith
rest_of_era (negsuc n) = ground arith

counted-rem_euclid :
    (x : ℤ) → counted x ≡ from_day_of_era (div_euclid x 146097) (pos (rem_euclid x 146097))
unfolding counted
counted-rem_euclid x =
    ap (λ e. from_day_of_era e (x -ℤ e *ℤ 146097)) (era_of-div_euclid x)
    ∙ ap (from_day_of_era (div_euclid x 146097)) (rest_of_era x)

rem_euclid-bound : (x : ℤ) → rem_euclid x 146097 < 146097
rem_euclid-bound (pos n) = omega arith
rem_euclid-bound (negsuc n) = omega arith

div_same :
    (x : ℤ) → rem_euclid x 146097 < 146096 → div_euclid (x +ℤ pos 1) 146097 ≡ div_euclid x 146097
div_same (pos n) h = ground arith
div_same (negsuc n) h = ground arith

rem_next :
    (x : ℤ)
    → rem_euclid x 146097 < 146096
    → rem_euclid (x +ℤ pos 1) 146097 ≡ rem_euclid x 146097 + 1
rem_next (pos n) h = ground arith
rem_next (negsuc n) h = ground arith

div_next :
    (x : ℤ)
    → rem_euclid x 146097 ≡ 146096
    → div_euclid (x +ℤ pos 1) 146097 ≡ div_euclid x 146097 +ℤ pos 1
div_next (pos n) h = ground arith
div_next (negsuc n) h = ground arith

rem_zero : (x : ℤ) → rem_euclid x 146097 ≡ 146096 → rem_euclid (x +ℤ pos 1) 146097 ≡ 0
rem_zero (pos n) h = ground arith
rem_zero (negsuc n) h = ground arith

last_rem : (x : ℤ) → ltb (rem_euclid x 146097) 146096 ≡ false → rem_euclid x 146097 ≡ 146096
last_rem x h = ground (arith, rem_euclid-bound x)

counted-next : (x : ℤ) → next_day (counted x) ≡ counted (x +ℤ pos 1)
counted-next x =
    rw (counted-rem_euclid x, counted-rem_euclid (x +ℤ pos 1))
      elim (Bool-cases (ltb (rem_euclid x 146097) 146096)) [
        | inl within ↦
            rw (div_same x (ground arith), rem_next x (ground arith))
              (in_era_step (div_euclid x 146097) (rem_euclid x 146097) (ground arith))
        | inr last ↦
            let full = last_rem x last in
            rw (div_next x full, rem_zero x full, full) (turn_of_era (div_euclid x 146097))
      ]

shift_suc : (z : ℤ) → z +ℤ pos 1 +ℤ pos 719468 ≡ z +ℤ pos 719468 +ℤ pos 1
shift_suc (pos n) = ground arith
shift_suc (negsuc n) = ground arith

-- `civil_from_days` counts the days of the Gregorian calendar: it names the first of January 1970
-- for the day 0, and for each day after any day `z`, before or after 1970, the date that follows
-- the date of `z`: the next of the same month, or the first of the next month.
pub civil_from_days-next_day :
    (z : ℤ)
    → (civil_from_days (pos 0) ≡ date (pos 1970) (pos 1) (pos 1))
      × (civil_from_days (z +ℤ pos 1) ≡ next_day (civil_from_days z))
unfolding civil_from_days counted
civil_from_days-next_day z =
    (epoch, ap counted (shift_suc z) ∙ sym (counted-next (z +ℤ pos 719468)))
