-- ===== src/Windows/Catchall.antt =====
-- The SOCKS fallback of a `ProxyServer` string.
use proxy_watch.Endpoint.{ProxyEntry, use_endpoint}
use proxy_watch.Mode.Table.{Slots, get}
use proxy_watch.Prelude.{Option, none, some, ◌≡◌, arith, if◌then◌else◌, is_some, or_option}
use proxy_watch.Scheme.{Scheme}
use proxy_watch.Windows.{apply_socks_catch_all}

abbrev pub live_socks : Slots → Option ProxyEntry
live_socks m = elim (get m Scheme.socks) [
  | some x ↦ elim x [ use_endpoint e ↦ some (use_endpoint e) | _ ↦ none ]
  | none ↦ none
]

-- Every slot after the fallback: where the catch-all was set, nothing changes; else an empty slot
-- takes the SOCKS endpoint if there is one, and a slot that was set stays as it was.
pub get-apply_socks_catch_all :
    (m : Slots) (s : Scheme)
    → get (apply_socks_catch_all m) s
      ≡ (if is_some (get m Scheme.all) then get m s else or_option (get m s) (live_socks m))
unfolding apply_socks_catch_all
get-apply_socks_catch_all m s = ground arith
