-- ===== src/Tests/Dict.antt =====
-- Proxy dictionaries on small inputs.
use proxy_watch.Bypass.Rules
use proxy_watch.Bypass.Rules.{BypassRules}
use proxy_watch.Dict.{mode_from_dict}
use proxy_watch.Dict.Bypass.{expand_abbreviated_cidr}
use proxy_watch.Dict.Catchall.{mode_from_dict-catch_all}
use proxy_watch.Dict.Silence.{mode_from_dict-direct_iff, is_silent_dict}
use proxy_watch.Dict.Values
use proxy_watch.Dict.Values.{ProxyDict, DictValue, number, text_value, unreadable, insert}
use proxy_watch.Diagnostic.{RejectedValue, for_scheme}
use proxy_watch.Endpoint.{ProxyEntry, is_disabled}
use proxy_watch.Mode.{
  ProxyMode, direct, manual_mode, entry_for, with_rejected, manual, wpad_auto_detect,
}
use proxy_watch.Mode.Table.{Slots, no_slots}
use proxy_watch.Prelude.{true, false, some, List, [], ◌≡◌, ◌↔◌, refl}
use proxy_watch.Prelude.Integer.{pos}
use proxy_watch.Prelude.Result.{ok, err}
use proxy_watch.Scheme.{Scheme}
use proxy_watch.Tests.Data.{toy_crates}
use proxy_watch.Text.{lit, split, split_once, text_eq}

abbrev lost_socks : ProxyDict
lost_socks =
    insert (lit "SOCKSEnable") unreadable (insert (lit "HTTPEnable") (number (pos 0)) Values.new)

mode_from_dict-direct_iff_example :
    (mode_from_dict lost_socks ≡ ok direct) ↔ (is_silent_dict lost_socks ≡ true)
mode_from_dict-direct_iff_example = mode_from_dict-direct_iff lost_socks

expanded : expand_abbreviated_cidr (lit "10.1/8") ≡ lit "10.1.0.0/8"
unfolding expand_abbreviated_cidr split_once split
expanded = refl

abbrev slots_of : ProxyMode → Slots
slots_of (manual_mode m b rs) = m
slots_of mode = no_slots

abbrev rules_of : ProxyMode → BypassRules
rules_of (manual_mode m b rs) = b
rules_of mode = Rules.new

abbrev drops_held : ProxyMode → List RejectedValue
drops_held (manual_mode m b rs) = rs
drops_held mode = []

abbrev lost_mode : ProxyMode
lost_mode = elim (mode_from_dict lost_socks) [ ok mode ↦ mode | err e ↦ wpad_auto_detect ]

mode_from_dict-catch_all_example :
    (e : ProxyEntry) × (entry_for Scheme.http
        (manual_mode (slots_of lost_mode) (rules_of lost_mode) (drops_held lost_mode))
      ≡ some e)
    × (is_disabled e ≡ false)
unfolding mode_from_dict insert text_eq with_rejected manual for_scheme
mode_from_dict-catch_all_example =
    mode_from_dict-catch_all lost_socks (slots_of lost_mode) (rules_of lost_mode)
      (drops_held lost_mode) Scheme.http refl refl
