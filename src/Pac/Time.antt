-- ===== src/Pac/Time.antt =====
-- src/pac/time.rs: the calendar of the date and time functions. The numbers of the calendar are
-- integers, since none of them comes near the ends of 64 bits. An instant is its nanoseconds after
-- the start of 1970; the clock is an argument, and so is the reading of a floating-point number.
pub mod Years
pub mod Eras
pub mod Days
pub mod Calendar
pub mod Instants
use proxy_watch.Prelude.{
  ℕ, ◌+◌, ◌*◌, ◌/◌, ◌%◌, Bool, true, false, ◌&&◌, ◌||◌, Option, none, some, List, [], ◌∷◌,
  if◌then◌else◌, map_option, and_then, unwrap_or, ◌==◌, ◌^◌,
}
use proxy_watch.Pac.Policy.{PacPolicy}
use proxy_watch.Text.{Text, lit, lower, upper, text_eq, is_whitespace, trim_with}
use proxy_watch.Prelude.Integer.{
  ℤ, pos, negsuc, ◌+ℤ◌, ◌-ℤ◌, ◌*ℤ◌, ◌/ℤ◌, div_euclid, rem_euclid, le_int, negate, saturating64,
}

-- The triple that `civil_from_days` answers.
pub data Date : Type 0 where
  date : ℤ → ℤ → ℤ → Date

pub record Civil : Type 0 where
  pub year : ℤ
  pub month : ℤ
  pub day : ℤ
  pub hour : ℤ
  pub minute : ℤ
  pub second : ℤ
  pub weekday : ℤ

-- The date of a day `doy` of the year `y`, which begins on the first of March.
abbrev pub from_month : ℤ → ℤ → ℤ → Date
from_month y doy mp =
    let d = doy -ℤ (mp *ℤ 153 +ℤ pos 2) /ℤ 5 +ℤ pos 1 in
    let m = if le_int (pos 10) mp then mp -ℤ pos 9 else mp +ℤ pos 3 in
    date (if le_int m (pos 2) then y +ℤ pos 1 else y) m d

unfoldable pub from_day_of_year : ℤ → ℤ → Date
from_day_of_year y doy = from_month y doy ((doy *ℤ 5 +ℤ pos 2) /ℤ 153)

-- The date of a day `doe` of an era of 400 years.
unfoldable pub year_of_era : ℤ → ℤ
year_of_era doe = (doe -ℤ doe /ℤ 1460 +ℤ doe /ℤ 36524 -ℤ doe /ℤ 146096) /ℤ 365

abbrev pub from_year : ℤ → ℤ → ℤ → Date
from_year era doe yoe =
    from_day_of_year (yoe +ℤ era *ℤ 400) (doe -ℤ (yoe *ℤ 365 +ℤ yoe /ℤ 4 -ℤ yoe /ℤ 100))

abbrev pub from_day_of_era : ℤ → ℤ → Date
from_day_of_era era doe = from_year era doe (year_of_era doe)

abbrev pub era_of : ℤ → ℤ
era_of z = (if le_int (pos 0) z then z else z -ℤ pos 146096) /ℤ 146097

unfoldable pub civil_from_days : ℤ → Date
civil_from_days days =
    let z = days +ℤ pos 719468 in from_day_of_era (era_of z) (z -ℤ era_of z *ℤ 146097)

-- The instant of a date, `rem` seconds into its day.
abbrev pub civil_at : Date → ℕ → ℕ → Civil
civil_at (date year month day) rem weekday = record {
  year = year;
  month = month;
  day = day;
  hour = pos (rem / 3600);
  minute = pos (rem / 60 % 60);
  second = pos (rem % 60);
  weekday = pos weekday;
}

unfoldable pub civil_from_unix : ℤ → Civil
unfolding civil_from_days
civil_from_unix secs =
    let days = div_euclid secs 86400 in
    civil_at (civil_from_days days) (rem_euclid secs 86400) (rem_euclid (days +ℤ pos 4) 7)

unfoldable pub in_cyclic_range : ℤ → ℤ → ℤ → Bool
in_cyclic_range value lo hi =
    if le_int lo hi then le_int lo value && le_int value hi else le_int lo value || le_int value hi

-- `i64::try_from`, or the greatest number.
abbrev as_signed64 : ℕ → ℤ
as_signed64 n = saturating64 (pos n)

-- The whole seconds before an instant, rounded down.
unfoldable pub seconds_of : ℤ → ℤ
seconds_of (pos n) = as_signed64 (n / 10 ^ 9)
seconds_of (negsuc n) =
    negate (as_signed64 ((n + 1) / 10 ^ 9 + (if (n + 1) % 10 ^ 9 == 0 then 0 else 1)))

unfoldable pub civil_now : ℤ → PacPolicy → Bool → Civil
civil_now clock policy gmt =
    let secs = seconds_of (unwrap_or policy.now clock) in
    civil_from_unix (if gmt then secs else saturating64 (secs +ℤ policy.local_utc_offset))

-- `position` in a list of names.
abbrev pub position : Text → List Text → Option ℕ
position name [] = none
position name (first ∷ rest) =
    let behind = position name rest in
    if text_eq first name then some 0 else map_option (λ n. n + 1) behind

abbrev pub days : List Text
days = lit "SUN" ∷ lit "MON" ∷ lit "TUE" ∷ lit "WED" ∷ lit "THU" ∷ lit "FRI" ∷ lit "SAT" ∷ []

abbrev pub months : List Text
months =
    lit "JAN"
    ∷ lit "FEB"
    ∷ lit "MAR"
    ∷ lit "APR"
    ∷ lit "MAY"
    ∷ lit "JUN"
    ∷ lit "JUL"
    ∷ lit "AUG"
    ∷ lit "SEP"
    ∷ lit "OCT"
    ∷ lit "NOV"
    ∷ lit "DEC"
    ∷ []

unfoldable pub weekday_index : Text → Option ℤ
weekday_index name = map_option pos (position (upper (trim_with is_whitespace name)) days)

unfoldable pub month_index : Text → Option ℤ
month_index name =
    map_option (λ n. pos (n + 1)) (position (upper (trim_with is_whitespace name)) months)

abbrev is_gmt : Text → Bool
is_gmt last = text_eq (lower (trim_with is_whitespace last)) (lit "gmt")

unfoldable pub split_gmt : List Text → List Text × Bool
split_gmt [] = ([], false)
split_gmt (last ∷ []) = if is_gmt last then ([], true) else (last ∷ [], false)
split_gmt (arg ∷ next ∷ args) = let (rest, gmt) = split_gmt (next ∷ args) in (arg ∷ rest, gmt)

-- `f64`: its reader, its test and its conversion, which rounds towards zero and stops at the ends.
pub record Floats : Type 1 where
  pub Float : Type 0
  pub from_str : Text → Option Float
  pub is_finite : Float → Bool
  pub as_i64 : Float → ℤ

unfoldable pub number : Floats → Text → Option ℤ
number floats text =
    and_then (floats.from_str (trim_with is_whitespace text))
      (λ value. if floats.is_finite value then some (floats.as_i64 value) else none)
