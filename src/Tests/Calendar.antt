-- ===== src/Tests/Calendar.antt =====
-- Dates, instants and ranges of weekdays.
use proxy_watch.Pac.Hostfn.Ranges.{weekday_range, date_range, time_range}
use proxy_watch.Pac.Hostfn.Ranges.Cycles.{weekday_range-steps}
use proxy_watch.Pac.Policy
use proxy_watch.Pac.Policy.{PacPolicy, with_now}
use proxy_watch.Pac.Time.{
  date, civil_now, civil_from_days, civil_from_unix, split_gmt, weekday_index, month_index,
  from_day_of_year, year_of_era, in_cyclic_range, seconds_of, Floats, number,
}
use proxy_watch.Pac.Time.Calendar.{civil_from_days-next_day}
use proxy_watch.Pac.Time.Instants.{civil_from_unix-tomorrow, date_of}
use proxy_watch.Pac.Time.Years.{next_day}
use proxy_watch.Prelude.{ℕ, ◌+◌, ◌-◌, ◌%◌, ◌≡◌, true, false, some, List, [], ◌∷◌, leb, refl}
use proxy_watch.Prelude.Integer.{ℤ, pos, negsuc, ◌+ℤ◌, rem_euclid}
use proxy_watch.Text.{Text, lit, is_whitespace, lower_char, upper_char, text_eq, trim_end}
use proxy_watch.Text.Number.{parse_i64, decimal_from}

-- The last day of February 2000, which the last correction of the year reaches.
leap_day : civil_from_days (pos 11016) ≡ date (pos 2000) (pos 2) (pos 29)
unfolding civil_from_days from_day_of_year year_of_era
leap_day = refl

before_march : civil_from_days (negsuc 719527) ≡ date (pos 0) (pos 1) (pos 1)
unfolding civil_from_days from_day_of_year year_of_era
before_march = refl

civil_from_days-next_day_example :
    (civil_from_days (pos 0) ≡ date (pos 1970) (pos 1) (pos 1))
    × (civil_from_days (pos 11016 +ℤ pos 1) ≡ next_day (civil_from_days (pos 11016)))
civil_from_days-next_day_example = civil_from_days-next_day (pos 11016)

civil_from_unix-tomorrow_example :
    let now = civil_from_unix (negsuc 0) in
    let then = civil_from_unix (pos 86399) in
    (date_of then ≡ next_day (date_of now))
    × (then.weekday ≡ pos (rem_euclid (now.weekday +ℤ pos 1) 7))
    × (then.hour ≡ now.hour)
    × (then.minute ≡ now.minute)
    × (then.second ≡ now.second)
civil_from_unix-tomorrow_example = civil_from_unix-tomorrow (negsuc 0)

-- 2024-02-29T13:45:07Z, a Thursday.
abbrev pinned : PacPolicy
pinned = record Policy.new { now = some (pos 1709214307000000000) }

abbrev weekend : List Text
weekend = lit "fri" ∷ lit " MON" ∷ lit "GMT" ∷ []

weekday_range-steps_example :
    (w : ℕ) × ((civil_now (pos 0) pinned true).weekday ≡ pos w)
    × (weekday_range (pos 0) weekend pinned ≡ leb ((w + 7 - 5) % 7) ((1 + 7 - 5) % 7))
unfolding split_gmt weekday_index is_whitespace lower_char upper_char text_eq trim_end
weekday_range-steps_example =
    weekday_range-steps (pos 0) pinned weekend (lit "fri") (lit " MON") true 5 1 refl refl refl

not_weekend : weekday_range (pos 0) weekend pinned ≡ false
unfolding weekday_range split_gmt weekday_index is_whitespace lower_char upper_char text_eq trim_end
    civil_now seconds_of civil_from_unix civil_from_days from_day_of_year year_of_era
    in_cyclic_range
not_weekend = refl

-- A reader of whole numbers.
abbrev whole : Floats
whole = record { Float = ℤ; from_str = parse_i64; is_finite = λ _. true; as_i64 = λ n. n }

thursday_february :
    date_range whole (pos 0) (lit "28" ∷ lit "feb" ∷ lit "1" ∷ lit "mar" ∷ []) pinned ≡ true
unfolding date_range split_gmt month_index text_eq trim_end is_whitespace upper_char number
    parse_i64 decimal_from lower_char in_cyclic_range civil_now civil_from_unix from_day_of_year
    seconds_of year_of_era
thursday_february = refl

afternoon :
    time_range whole (pos 0) (lit "13" ∷ lit "45" ∷ lit "22" ∷ lit "0" ∷ lit "gmt" ∷ []) pinned
    ≡ true
unfolding time_range split_gmt number parse_i64 trim_end is_whitespace decimal_from text_eq
    lower_char in_cyclic_range civil_now civil_from_unix from_day_of_year seconds_of
afternoon = refl

-- A bound that overflows does not match.
overflow :
    time_range whole (pos 0) (lit "0" ∷ lit "0" ∷ lit "9223372036854775807" ∷ lit "0" ∷ []) pinned
    ≡ false
unfolding time_range split_gmt number parse_i64 trim_end is_whitespace decimal_from text_eq
    lower_char
overflow = refl
