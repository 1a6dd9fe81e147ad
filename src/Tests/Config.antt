-- ===== src/Tests/Config.antt =====
-- Snapshots, modes and the Windows settings on small inputs.
use proxy_watch.Config.{gsettings, with_env, before_system, source_mode}
use proxy_watch.Config.Env.{is_configured}
use proxy_watch.Config.Precedence.{IsOrdered, with_env-IsOrdered, with_env-source_mode}
use proxy_watch.Endpoint.{use_endpoint}
use proxy_watch.Mode.{entry_for, endpoint_for, websocket_endpoint, mirror, with_rejected}
use proxy_watch.Mode.Drops.{get-mirror, endpoint-with_rejected, first_drop}
use proxy_watch.Mode.Lookup.{entry_for-prefer, prefer}
use proxy_watch.Mode.Table.{get, no_slots, insert}
use proxy_watch.Prelude.{true, some, [], ◌∷◌, ◌≡◌, inl, refl, or_option}
use proxy_watch.Scheme.{Scheme}
use proxy_watch.Tests.Data.{
  toy_crates, desktop_config, proxied_env, two_slots, two_slots_mode, lost, proxy_at, local_rules,
}
use proxy_watch.Windows.{apply_socks_catch_all}
use proxy_watch.Windows.Catchall.{get-apply_socks_catch_all}

env_configured : is_configured proxied_env ≡ true
unfolding is_configured
env_configured = refl

with_env-IsOrdered_example : IsOrdered (with_env proxied_env before_system desktop_config)
with_env-IsOrdered_example =
    with_env-IsOrdered desktop_config proxied_env before_system refl (inl env_configured)

with_env-source_mode_example :
    source_mode gsettings (with_env proxied_env before_system desktop_config).sources
    ≡ source_mode gsettings desktop_config.sources
with_env-source_mode_example =
    with_env-source_mode desktop_config proxied_env before_system gsettings refl

entry_for-prefer_example :
    entry_for Scheme.http two_slots_mode
    ≡ prefer (get two_slots Scheme.http) (get two_slots Scheme.all)
entry_for-prefer_example = entry_for-prefer two_slots local_rules (lost ∷ []) Scheme.http

get-mirror_example :
    get (mirror (lost ∷ []) no_slots) Scheme.http
    ≡ or_option (get no_slots Scheme.http) (first_drop Scheme.http (lost ∷ []))
get-mirror_example = get-mirror (lost ∷ []) no_slots Scheme.http

endpoint-with_rejected_example :
    ((s : Scheme)
      → endpoint_for s (with_rejected (lost ∷ []) two_slots_mode) ≡ endpoint_for s two_slots_mode)
    × (websocket_endpoint (with_rejected (lost ∷ []) two_slots_mode)
        ≡ websocket_endpoint two_slots_mode)
endpoint-with_rejected_example = endpoint-with_rejected (lost ∷ []) two_slots_mode

get-apply_socks_catch_all_example :
    get
      (apply_socks_catch_all (insert Scheme.socks (use_endpoint (proxy_at "s")) two_slots))
      Scheme.ftp
    ≡ some (use_endpoint (proxy_at "s"))
get-apply_socks_catch_all_example =
    get-apply_socks_catch_all (insert Scheme.socks (use_endpoint (proxy_at "s")) two_slots)
      Scheme.ftp
