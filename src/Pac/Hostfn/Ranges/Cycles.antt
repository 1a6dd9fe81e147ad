-- ===== src/Pac/Hostfn/Ranges/Cycles.antt =====
-- Ranges of weekdays that wrap around the end of the week.
use proxy_watch.Pac.Hostfn.Ranges.{weekday_range}
use proxy_watch.Pac.Policy.{PacPolicy}
use proxy_watch.Pac.Time.{
  Date, date, civil_at, civil_now, civil_from_unix, in_cyclic_range, weekday_index, split_gmt,
  position, days, seconds_of,
}
use proxy_watch.Prelude.{
  ℕ, ◌+◌, ◌-◌, ◌%◌, ◌≡◌, ◌<◌, Bool, some, List, [], ◌∷◌, leb, arith, refl, unwrap_or, if◌then◌else◌,
  length,
}
use proxy_watch.Prelude.Integer.{ℤ, pos, negsuc, ◌+ℤ◌, div_euclid, rem_euclid, saturating64}
use proxy_watch.Text.{Text, trim_with, is_whitespace, upper}

in_cyclic_range-steps :
    (w f l : ℕ)
    → w < 7
    → f < 7
    → l < 7
    → in_cyclic_range (pos w) (pos f) (pos l) ≡ leb ((w + 7 - f) % 7) ((l + 7 - f) % 7)
unfolding in_cyclic_range
in_cyclic_range-steps w f l a b c = ground arith

position-length :
    (name : Text) (names : List Text) (n : ℕ) → position name names ≡ some n → n < length names
position-length name [] n h = ground arith
position-length name (first ∷ rest) n h = ground (arith, position-length name rest (n - 1))

weekday_index-bound : (name : Text) (n : ℕ) → weekday_index name ≡ some (pos n) → n < 7
unfolding weekday_index
weekday_index-bound name n h =
    position-length (upper (trim_with is_whitespace name)) days n (ground arith)

week_day : (z : ℤ) → rem_euclid z 7 < 7
week_day (pos n) = omega arith
week_day (negsuc n) = omega arith

weekday_of : (d : Date) (rem n : ℕ) → (civil_at d rem n).weekday ≡ pos n
weekday_of (date _ _ _) rem n = refl

-- The weekday is one of seven.
weekday-named : (secs : ℤ) → (w : ℕ) × (w < 7) × ((civil_from_unix secs).weekday ≡ pos w)
unfolding civil_from_unix
weekday-named secs = (
  rem_euclid (div_euclid secs 86400 +ℤ pos 4) 7,
  week_day (div_euclid secs 86400 +ℤ pos 4),
  weekday_of _ _ _,
)

-- Where the arguments are the names of two weekdays, with or without the flag of GMT, today is in
-- the range exactly if it is reached from the first one in no more steps, of a day each, than the
-- last one is, around the end of the week where need be.
pub weekday_range-steps :
    (clock : ℤ) (p : PacPolicy) (args : List Text) (first last : Text) (gmt : Bool) (f l : ℕ)
    → split_gmt args ≡ (first ∷ last ∷ [], gmt)
    → weekday_index first ≡ some (pos f)
    → weekday_index last ≡ some (pos l)
    → (w : ℕ) × ((civil_now clock p gmt).weekday ≡ pos w)
      × (weekday_range clock args p ≡ leb ((w + 7 - f) % 7) ((l + 7 - f) % 7))
unfolding weekday_range civil_now
weekday_range-steps clock p args first last gmt f l split from to =
    let secs = seconds_of (unwrap_or p.now clock) in
    let (w, bound, today) =
      weekday-named (if gmt then secs else saturating64 (secs +ℤ p.local_utc_offset)) in
    (
      w,
      today,
      rw (split, today, from, to)
          (in_cyclic_range-steps w f l bound (weekday_index-bound first f from)
            (weekday_index-bound last l to)),
    )
