-- ===== src/Tests/Linux.antt =====
-- A Linux desktop on small inputs.
use proxy_watch.Config.{kioslaverc}
use proxy_watch.Desktop.{
  Desktop, kde, Reading, configured, current_desktop, order, source_of, result_from,
}
use proxy_watch.Error.{Error, io}
use proxy_watch.Linux.{stores_config}
use proxy_watch.Linux.Confinement.{has_dconf_access, snap_is_confined, group_name}
use proxy_watch.Linux.Routes.{stores_config-effective, Settles}
use proxy_watch.Mode.{direct}
use proxy_watch.Prelude.{true, false, none, some, ◌≡◌, refl, if◌then◌else◌}
use proxy_watch.Prelude.Result.{Result, ok, err}
use proxy_watch.Text.{lit, text_eq, text_ops}

abbrev lost_store : Result Error Reading
lost_store = err (io (lit "reading") (lit "denied"))

abbrev deliberate : Result Error Reading
deliberate = ok (configured kioslaverc direct)

-- The leading store says direct, and the other one fails.
stores_config-effective_example :
    Settles
      (source_of (order kde).1)
      (result_from (order kde).0 lost_store deliberate)
      (result_from (order kde).1 lost_store deliberate)
      (stores_config 7 (λ store. true) kde lost_store deliberate)
stores_config-effective_example =
    stores_config-effective 7 (λ store. true) kde lost_store deliberate

access :
    (has_dconf_access (lit "[Session Bus Policy]\nca.desrt.dconf = talk\n") ≡ true)
    × (has_dconf_access (lit "[Session Bus Policy]\nca.desrt.dconf=talk \n") ≡ false)
unfolding has_dconf_access text_ops group_name
access = (refl, refl)

classic : snap_is_confined (lit "name: app\nconfinement: classic\n") ≡ false
unfolding snap_is_confined text_ops
classic = refl

session :
    current_desktop
      (λ name. if text_eq name (lit "XDG_CURRENT_DESKTOP") then some (lit "ubuntu:GNOME") else none)
    ≡ Desktop.gnome
unfolding current_desktop text_ops
session = refl
