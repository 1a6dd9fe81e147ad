-- ===== src/Mode/Table.antt =====
-- `HashMap<Scheme, ProxyEntry>`: the keys are the five schemes, so the map is a function.
use proxy_watch.Endpoint.{ProxyEntry}
use proxy_watch.Prelude.{Bool, not, Option, none, some, if◌then◌else◌, any, is_some, or_option}
use proxy_watch.Scheme.{Scheme, schemes, scheme_eq}

abbrev pub Slots : Type 0
Slots = Scheme → Option ProxyEntry

abbrev pub no_slots : Slots
no_slots s = none

abbrev pub get : Slots → Scheme → Option ProxyEntry
get m s = m s

abbrev pub insert : Scheme → ProxyEntry → Slots → Slots
insert k e m s = if scheme_eq k s then some e else m s

-- `entry(k).or_insert_with(|| e)`
abbrev pub or_insert : Scheme → ProxyEntry → Slots → Slots
or_insert k e m s = if scheme_eq k s then or_option (m s) (some e) else m s

abbrev pub no_entries : Slots → Bool
no_entries m = not (any (λ s. is_some (m s)) schemes)
