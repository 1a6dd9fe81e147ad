-- ===== src/Watch/Options.antt =====
-- src/watch.rs: the options of a subscription, their limits, and what a route that could not be
-- established means for it. A duration is a number of nanoseconds.
use proxy_watch.Error.{Error}
use proxy_watch.Prelude.{
  ℕ, ◌*◌, ◌^◌, Bool, true, not, ◌&&◌, Option, none, ltb, if◌then◌else◌, is_some,
}
use proxy_watch.Prelude.Result.{Result, ok, err}

abbrev pub default_debounce : ℕ
default_debounce = 200 * 10 ^ 6

abbrev pub min_poll_interval : ℕ
min_poll_interval = default_debounce

abbrev pub max_debounce : ℕ
max_debounce = 24 * 60 * 60 * 10 ^ 9

unfoldable pub effective_poll_interval : ℕ → ℕ
effective_poll_interval requested =
    if ltb requested min_poll_interval then min_poll_interval else requested

unfoldable pub effective_debounce : ℕ → ℕ
effective_debounce requested = if ltb max_debounce requested then max_debounce else requested

pub record WatchOptions : Type 0 where
  pub debounce : ℕ
  pub watch_group_policy : Bool
  pub poll_interval : Option ℕ

abbrev pub new : WatchOptions
new = record { debounce = default_debounce; watch_group_policy = true; poll_interval = none }

unfoldable pub with_debounce : ℕ → WatchOptions → WatchOptions
with_debounce debounce o = record o { debounce = debounce }

unfoldable pub with_group_policy : Bool → WatchOptions → WatchOptions
with_group_policy watch o = record o { watch_group_policy = watch }

unfoldable pub with_poll_interval : Option ℕ → WatchOptions → WatchOptions
with_poll_interval interval o = record o { poll_interval = interval }

pub data WatchFailSoft (A : Type 0) : Type 0 where
  live : A → WatchFailSoft A
  degraded : Error → WatchFailSoft A
  fatal : Error → WatchFailSoft A

module _ {A : Type 0} where
  -- A route that leads must hold, unless polling stands in for it.
  unfoldable pub watch_fail_soft : Bool → Option ℕ → Result Error A → WatchFailSoft A
  watch_fail_soft leading interval (ok value) = live value
  watch_fail_soft leading interval (err e) =
      if leading && not (is_some interval) then fatal e else degraded e

  unfoldable pub watch_fail_soft_reachable :
      Result {0, 0} Error Unit → Bool → Option ℕ → Result Error A → Result Error (WatchFailSoft A)
  unfolding watch_fail_soft
  watch_fail_soft_reachable (err e) leading interval established = err e
  watch_fail_soft_reachable (ok _) leading interval established =
      ok (watch_fail_soft leading interval established)
