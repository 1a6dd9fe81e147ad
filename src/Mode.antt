-- ===== src/Mode.antt =====
-- src/mode.rs: the unified proxy mode, its per-scheme map, and the lookups.
pub mod Table
pub mod Lookup
pub mod Drops
pub mod Silent
use proxy_watch.Bypass.Rules.{BypassRules}
use proxy_watch.Crates.{Url}
use proxy_watch.Diagnostic.{RejectedValue}
use proxy_watch.Endpoint.{ProxyEndpoint, ProxyEntry, use_endpoint, disabled, unusable, endpoint}
use proxy_watch.Mode.Table.{Slots, get, or_insert}
use proxy_watch.Prelude.{
  ℕ, Bool, true, false, Option, none, some, List, [], ◌∷◌, ◌++◌, and_then, or_option,
}
use proxy_watch.Scheme.{Scheme, schemes}
use proxy_watch.Text.{Text}

pub data ProxyMode : Type 0 where
  direct : ProxyMode
  -- the entries, the bypass rules, and the drops
  manual_mode : Slots → BypassRules → List RejectedValue → ProxyMode
  pac_mode : Url → List RejectedValue → ProxyMode
  pac_inline_mode : Text → List RejectedValue → ProxyMode
  wpad_auto_detect : ProxyMode

-- The loop of `first_answer`, with the drop remembered so far.
first_answer_from : Option ProxyEntry → List ProxyEntry → Option ProxyEntry
first_answer_from dropped [] = dropped
first_answer_from dropped (unusable r ∷ chain) =
    first_answer_from (or_option dropped (some (unusable r))) chain
first_answer_from dropped (entry ∷ chain) = some entry

unfoldable pub first_answer : List ProxyEntry → Option ProxyEntry
unfolding first_answer_from
first_answer = first_answer_from none

abbrev pub to_list : Option ProxyEntry → List ProxyEntry
to_list none = []
to_list (some e) = e ∷ []

abbrev drop_in : Option ProxyEntry → List RejectedValue
drop_in (some (unusable r)) = r ∷ []
drop_in _ = []

-- The drops that a map holds, in the order of `Scheme::ALL`.
unfoldable pub drops_of : Slots → List Scheme → List RejectedValue
drops_of slots [] = []
drops_of slots (s ∷ ss) = drop_in (get slots s) ++ drops_of slots ss

unfoldable pub manual : Slots → BypassRules → ProxyMode
unfolding drops_of
manual per_scheme bypass = manual_mode per_scheme bypass (drops_of per_scheme schemes)

unfoldable pub pac : Url → ProxyMode
pac url = pac_mode url []

unfoldable pub pac_inline : Text → ProxyMode
pac_inline script = pac_inline_mode script []

mirror_one : Option Scheme → RejectedValue → Slots → Slots
mirror_one none value slots = slots
mirror_one (some scheme) value slots = or_insert scheme (unusable value) slots

-- Each drop that names a scheme fills the scheme's slot, if nothing stands there.
unfoldable pub mirror : List RejectedValue → Slots → Slots
unfolding mirror_one
mirror [] slots = slots
mirror (v ∷ vs) slots = mirror vs (mirror_one v.affected_scheme v slots)

unfoldable pub with_rejected : List RejectedValue → ProxyMode → ProxyMode
unfolding mirror
with_rejected rejected (manual_mode slots bypass old) =
    manual_mode (mirror rejected slots) bypass rejected
with_rejected rejected (pac_mode url old) = pac_mode url rejected
with_rejected rejected (pac_inline_mode script old) = pac_inline_mode script rejected
with_rejected rejected direct = direct
with_rejected rejected wpad_auto_detect = wpad_auto_detect

unfoldable pub is_direct : ProxyMode → Bool
is_direct direct = true
is_direct _ = false

unfoldable pub bypass_of : ProxyMode → Option BypassRules
bypass_of (manual_mode slots bypass rejected) = some bypass
bypass_of _ = none

unfoldable pub rejected_of : ProxyMode → Option (List RejectedValue)
rejected_of (manual_mode slots bypass rejected) = some rejected
rejected_of (pac_mode url rejected) = some rejected
rejected_of (pac_inline_mode script rejected) = some rejected
rejected_of direct = none
rejected_of wpad_auto_detect = none

unfoldable pub entry_for : Scheme → ProxyMode → Option ProxyEntry
unfolding first_answer
entry_for scheme (manual_mode slots bypass rejected) =
    first_answer (to_list (get slots scheme) ++ to_list (get slots Scheme.all))
entry_for scheme _ = none

unfoldable pub endpoint_for : Scheme → ProxyMode → Option ProxyEndpoint
unfolding entry_for
endpoint_for scheme mode = and_then (entry_for scheme mode) endpoint

-- A step before the last of the WebSocket chain: a disabled entry does not stop it.
abbrev pub configured : Option ProxyEntry → List ProxyEntry
configured (some (use_endpoint e)) = use_endpoint e ∷ []
configured (some (unusable r)) = unusable r ∷ []
configured _ = []

unfoldable pub websocket_entry : ProxyMode → Option ProxyEntry
unfolding first_answer
websocket_entry (manual_mode slots bypass rejected) = first_answer (
    configured (get slots Scheme.socks)
    ++ configured (get slots Scheme.https)
    ++ configured (get slots Scheme.http)
    ++ to_list (get slots Scheme.all))
websocket_entry _ = none

unfoldable pub websocket_endpoint : ProxyMode → Option ProxyEndpoint
unfolding websocket_entry
websocket_endpoint mode = and_then (websocket_entry mode) endpoint
