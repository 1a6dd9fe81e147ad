-- ===== src/Tests/Gnome.antt =====
-- GNOME settings on small inputs.
use proxy_watch.Gnome.{mode_from_settings, configured_mode}
use proxy_watch.Gnome.Hosts.{mode_from_settings-direct_iff, reads_direct}
use proxy_watch.Gnome.Settings
use proxy_watch.Gnome.Settings.{GnomeSettings, g_text, insert, has_written_value, text}
use proxy_watch.Mode.{direct, is_direct}
use proxy_watch.Prelude.{true, none, ◌≡◌, ◌↔◌, refl}
use proxy_watch.Prelude.Result.{ok}
use proxy_watch.Tests.Data.{toy_crates}
use proxy_watch.Text.{lit, text_eq}

-- A manual mode whose only host has no end.
abbrev lost_http : GnomeSettings
lost_http =
    insert (lit "http.host") (g_text (lit "["))
      (insert (lit "mode") (g_text (lit "manual")) Settings.new)

mode_from_settings-direct_iff_example :
    (mode_from_settings lost_http ≡ ok direct) ↔ (reads_direct lost_http ≡ true)
mode_from_settings-direct_iff_example = mode_from_settings-direct_iff lost_http

untouched : configured_mode Settings.new ≡ ok none
unfolding configured_mode mode_from_settings has_written_value text text_eq is_direct
untouched = refl
