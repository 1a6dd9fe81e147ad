-- ===== src/Pac/Time/Instants.antt =====
-- Instants a day apart.
use proxy_watch.Pac.Time.{Civil, civil_at, civil_from_unix, civil_from_days, Date, date}
use proxy_watch.Pac.Time.Calendar.{civil_from_days-next_day}
use proxy_watch.Pac.Time.Years.{next_day}
use proxy_watch.Prelude.{ℕ, ◌+◌, ◌/◌, ◌%◌, ◌≡◌, refl, ap, ◌∙◌, sym, arith}
use proxy_watch.Prelude.Integer.{ℤ, pos, negsuc, ◌+ℤ◌, div_euclid, rem_euclid}

abbrev pub date_of : Civil → Date
date_of c = date c.year c.month c.day

div_tomorrow : (s : ℤ) → div_euclid (s +ℤ pos 86400) 86400 ≡ div_euclid s 86400 +ℤ pos 1
div_tomorrow (pos n) = ground arith
div_tomorrow (negsuc n) = ground arith

rem_tomorrow : (s : ℤ) → rem_euclid (s +ℤ pos 86400) 86400 ≡ rem_euclid s 86400
rem_tomorrow (pos n) = ground arith
rem_tomorrow (negsuc n) = ground arith

weekday_tomorrow :
    (z : ℤ) → rem_euclid (z +ℤ pos 1 +ℤ pos 4) 7 ≡ (rem_euclid (z +ℤ pos 4) 7 + 1) % 7
weekday_tomorrow (pos n) = ground arith
weekday_tomorrow (negsuc n) = ground arith

civil_at-fields :
    (d : Date) (rem weekday : ℕ)
    → (date_of (civil_at d rem weekday) ≡ d)
      × ((civil_at d rem weekday).hour ≡ pos (rem / 3600))
      × ((civil_at d rem weekday).minute ≡ pos (rem / 60 % 60))
      × ((civil_at d rem weekday).second ≡ pos (rem % 60))
      × ((civil_at d rem weekday).weekday ≡ pos weekday)
civil_at-fields (date y m d) rem weekday = (refl, refl, refl, refl, refl)

-- The instant 86400 seconds later: of the next date and weekday, at the same hour, minute and
-- second.
pub civil_from_unix-tomorrow :
    (secs : ℤ)
    → let now = civil_from_unix secs in
      let then = civil_from_unix (secs +ℤ pos 86400) in
      (date_of then ≡ next_day (date_of now))
      × (then.weekday ≡ pos (rem_euclid (now.weekday +ℤ pos 1) 7))
      × (then.hour ≡ now.hour)
      × (then.minute ≡ now.minute)
      × (then.second ≡ now.second)
unfolding civil_from_unix
civil_from_unix-tomorrow secs =
    let z = div_euclid secs 86400 in
    let (d, h, m, s, w) =
      civil_at-fields (civil_from_days z) (rem_euclid secs 86400) (rem_euclid (z +ℤ pos 4) 7) in
    let (e, i, n, t, v) =
      civil_at-fields (civil_from_days (z +ℤ pos 1)) (rem_euclid secs 86400)
        (rem_euclid (z +ℤ pos 1 +ℤ pos 4) 7) in
    let (_, next) = civil_from_days-next_day z in
    rw (div_tomorrow secs, rem_tomorrow secs)
      (
        e ∙ next ∙ ap next_day (sym d),
        v ∙ ap pos (weekday_tomorrow z) ∙ ap (λ k. pos (rem_euclid (k +ℤ pos 1) 7)) (sym w),
        i ∙ sym h,
        n ∙ sym m,
        t ∙ sym s,
      )
