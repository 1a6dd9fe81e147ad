-- ===== src/Mode/Lookup.antt =====
-- The two lookups against a description of their precedence.
use proxy_watch.Bypass.Rules.{BypassRules}
use proxy_watch.Diagnostic.{RejectedValue}
use proxy_watch.Endpoint.{ProxyEntry, use_endpoint, disabled}
use proxy_watch.Mode.{manual_mode, entry_for, websocket_entry}
use proxy_watch.Mode.Table.{Slots, get}
use proxy_watch.Prelude.{
  Bool, true, false, Option, none, some, List, ◌≡◌, arith, if◌then◌else◌, or_option,
}
use proxy_watch.Scheme.{Scheme}

-- An entry that is an answer: a drop is none.
abbrev pub is_live : Option ProxyEntry → Bool
is_live (some (use_endpoint e)) = true
is_live (some disabled) = true
is_live _ = false

-- The first live slot, or the first drop.
abbrev pub prefer : Option ProxyEntry → Option ProxyEntry → Option ProxyEntry
prefer a b = if is_live a then a else if is_live b then b else or_option a b

-- A disabled slot counts as empty before the last step of the WebSocket chain.
abbrev pub enabled : Option ProxyEntry → Option ProxyEntry
enabled (some disabled) = none
enabled o = o

module _ (m : Slots) (b : BypassRules) (r : List RejectedValue) where
  -- The entry of a scheme under a manual mode: the scheme's own entry if it is live, else the
  -- catch-all if that is live, else the drop that took the answer away, the scheme's own first.
  pub entry_for-prefer :
      (s : Scheme) → entry_for s (manual_mode m b r) ≡ prefer (get m s) (get m Scheme.all)
  unfolding entry_for
  entry_for-prefer s = ground arith

  -- The entry of a WebSocket request under a manual mode: SOCKS, HTTPS, HTTP, then the catch-all;
  -- a disabled entry is passed over before the catch-all, a drop answers only if nothing else does.
  pub websocket_entry-prefer :
      websocket_entry (manual_mode m b r)
      ≡ prefer (enabled (get m Scheme.socks)) (
          prefer
            (enabled (get m Scheme.https))
            (prefer (enabled (get m Scheme.http)) (get m Scheme.all)))
  unfolding websocket_entry
  websocket_entry-prefer = ground arith
