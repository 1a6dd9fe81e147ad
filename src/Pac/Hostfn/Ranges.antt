-- ===== src/Pac/Hostfn/Ranges.antt =====
-- src/pac/hostfn.rs: the functions of a script on the date and the time. The clock is an argument.
pub mod Cycles
use proxy_watch.Pac.Policy.{PacPolicy}
use proxy_watch.Pac.Time.{
  Civil, civil_now, in_cyclic_range, weekday_index, month_index, split_gmt, Floats, number,
}
use proxy_watch.Prelude.{
  ℕ, Bool, true, false, ◌&&◌, Option, none, some, List, [], ◌∷◌, if◌then◌else◌, and_then,
  map_option,
}
use proxy_watch.Prelude.Integer.{ℤ, pos, ◌+ℤ◌, ◌*ℤ◌, le_int, eq_int, checked64}
use proxy_watch.Text.{Text}

-- `in_cyclic_range`, where both ends were read.
abbrev within : ℤ → Option ℤ → Option ℤ → Bool
within value none _ = false
within value (some lo) none = false
within value (some lo) (some hi) = in_cyclic_range value lo hi

abbrev pub weekday_within : ℤ → List Text → Bool
weekday_within weekday [] = false
weekday_within weekday (first ∷ []) = within weekday (weekday_index first) (weekday_index first)
weekday_within weekday (first ∷ last ∷ []) =
    within weekday (weekday_index first) (weekday_index last)
weekday_within weekday (_ ∷ _ ∷ _ ∷ _) = false

unfoldable pub weekday_range : ℤ → List Text → PacPolicy → Bool
weekday_range clock args policy =
    let (args, gmt) = split_gmt args in weekday_within ((civil_now clock policy gmt).weekday) args

pub data DatePart : Type 0 where
  day month year : ℤ → DatePart

-- `collect` of the parts that were read: none, if one was not.
abbrev collect {ℓ} : {A : Type ℓ} → (Text → Option A) → List Text → Option (List A)
collect f [] = some []
collect f (arg ∷ args) =
    let rest = collect f args in and_then (f arg) (λ a. map_option (λ l. a ∷ l) rest)

unfoldable pub checked_my : ℤ → ℤ → Option ℤ
checked_my y m = and_then (checked64 (y *ℤ 100)) (λ n. checked64 (n +ℤ m))

unfoldable pub checked_ymd : ℤ → ℤ → ℤ → Option ℤ
checked_ymd y m d = and_then (checked64 (y *ℤ 10000)) (λ n. checked64 (n +ℤ (m *ℤ 100 +ℤ d)))

unfoldable pub checked_hms : ℤ → ℤ → ℤ → Option ℤ
checked_hms h m s = and_then (checked64 (h *ℤ 3600)) (λ n.
    and_then (checked64 (m *ℤ 60)) (λ k. and_then (checked64 (n +ℤ k)) (λ t. checked64 (t +ℤ s))))

unfoldable pub date_key : Civil → ℤ
date_key now = now.year *ℤ 10000 +ℤ now.month *ℤ 100 +ℤ now.day

unfoldable pub date_within : Civil → List DatePart → Bool
unfolding checked_my checked_ymd date_key
date_within now (day d ∷ []) = eq_int now.day d
date_within now (month m ∷ []) = eq_int now.month m
date_within now (year y ∷ []) = eq_int now.year y
date_within now (day lo ∷ day hi ∷ []) = in_cyclic_range now.day lo hi
date_within now (month lo ∷ month hi ∷ []) = in_cyclic_range now.month lo hi
date_within now (year lo ∷ year hi ∷ []) = in_cyclic_range now.year lo hi
date_within now (day d ∷ month m ∷ day e ∷ month n ∷ []) =
    in_cyclic_range (now.month *ℤ 100 +ℤ now.day) (m *ℤ 100 +ℤ d) (n *ℤ 100 +ℤ e)
date_within now (month m ∷ year y ∷ month n ∷ year z ∷ []) =
    within (now.year *ℤ 100 +ℤ now.month) (checked_my y m) (checked_my z n)
date_within now (day d ∷ month m ∷ year y ∷ day e ∷ month n ∷ year z ∷ []) =
    within (date_key now) (checked_ymd y m d) (checked_ymd z n e)
date_within now _ = false

unfoldable pub time_within : Civil → List ℤ → Bool
unfolding checked_hms
time_within now (h ∷ []) = eq_int now.hour h
time_within now (lo ∷ hi ∷ []) = le_int lo now.hour && le_int now.hour hi
time_within now (h ∷ m ∷ k ∷ n ∷ []) =
    within (now.hour *ℤ 3600 +ℤ now.minute *ℤ 60 +ℤ now.second) (checked_hms h m (pos 0))
      (checked_hms k n (pos 59))
time_within now (h ∷ m ∷ s ∷ k ∷ n ∷ t ∷ []) =
    within (now.hour *ℤ 3600 +ℤ now.minute *ℤ 60 +ℤ now.second) (checked_hms h m s)
      (checked_hms k n t)
time_within now _ = false

module _ (floats : Floats) where
  number_part : Text → Option DatePart
  number_part text = and_then (number floats text) (λ value.
      if le_int (pos 1) value && le_int value (pos 31)
      then some (day value)
      else if le_int (pos 1000) value
      then some (year value)
      else none)

  classify_date_part : Text → Option DatePart
  unfolding number_part
  classify_date_part text = elim (month_index text) [
    | some m ↦ some (month m)
    | none ↦ number_part text
  ]

  unfoldable pub date_range : ℤ → List Text → PacPolicy → Bool
  unfolding classify_date_part date_within
  date_range clock args policy =
      let (args, gmt) = split_gmt args in
      elim (collect classify_date_part args) [
        | none ↦ false
        | some parts ↦ date_within (civil_now clock policy gmt) parts
      ]

  unfoldable pub time_range : ℤ → List Text → PacPolicy → Bool
  unfolding time_within
  time_range clock args policy =
      let (args, gmt) = split_gmt args in
      elim (collect (number floats) args) [
        | none ↦ false
        | some values ↦ time_within (civil_now clock policy gmt) values
      ]
