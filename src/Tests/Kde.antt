-- ===== src/Tests/Kde.antt =====
-- KDE settings on small inputs.
use proxy_watch.Error.{Error, cgi_http_proxy}
use proxy_watch.Kde.{config_from_kioslaverc}
use proxy_watch.Kde.Address.{normalize_address}
use proxy_watch.Files.{FileRead, contents, not_found}
use proxy_watch.Kde.Cascade.{
  KioslavercRead, nothing_read, read_layers, read_kioslaverc, search_dirs,
}
use proxy_watch.Kde.Cascade.Locks.{read_layers-locked}
use proxy_watch.Kde.Escape.{printable_to_string}
use proxy_watch.Kde.File.{apply_proxy_settings}
use proxy_watch.Kde.Header.{group_header}
use proxy_watch.Kde.Indirect.{env_mode, forgeable_by_a_request_header}
use proxy_watch.Kde.Settings
use proxy_watch.Kde.Settings.{KioslavercSettings, insert, apply, text, needs_expansion}
use proxy_watch.Kde.Silence.{config_from_kioslaverc-direct_iff, direct_config, reads_direct}
use proxy_watch.Prelude.{
  true, false, Option, none, some, List, [], ◌∷◌, ◌≡◌, ◌↔◌, refl, if◌then◌else◌,
}
use proxy_watch.Prelude.Result.{Result, ok, err}
use proxy_watch.Tests.Data.{toy_crates}
use proxy_watch.Text.{Text, lit, text_eq, text_ops}
use proxy_watch.Text.Lossy.{from_utf8_lossy_at}

abbrev valid : Text → Option Text
valid t = none

abbrev two_files : Text → FileRead
two_files path =
    if text_eq path (lit "/etc/xdg/kioslaverc")
    then contents (lit "[Proxy Settings]\nProxyType[$i]=1\nhttpProxy=old 80\n")
    else if text_eq path (lit "/home/a/.config/kioslaverc")
    then contents (lit "[Proxy Settings]\nProxyType=0\nhttpProxy=new 81\n")
    else not_found

abbrev layers : List Text
layers = search_dirs none (some (lit "/home/a")) none

abbrev value_in : Result Error (Option KioslavercRead) → Text → Option Text
value_in (ok (some r)) key = text r.settings key
value_in _ key = none

-- The locked key keeps the value of the system, the other one has that of the user.
cascade :
    (value_in (read_kioslaverc valid two_files layers) (lit "ProxyType") ≡ some (lit "1"))
    × (value_in (read_kioslaverc valid two_files layers) (lit "httpProxy") ≡ some (lit "new 81"))
unfolding read_kioslaverc apply_proxy_settings search_dirs text text_ops group_header apply
    printable_to_string
cascade = (refl, refl)

unescaped : printable_to_string (lit "a\\sb\\x41\\;") ≡ lit "a bA\\;"
unfolding printable_to_string text_ops from_utf8_lossy_at
unescaped = refl

folded : normalize_address (lit " http://::1 8080") ≡ lit "http://[::1]:8080"
unfolding normalize_address text_ops
folded = refl

abbrev locked_type : KioslavercRead
locked_type = record nothing_read {
  settings = apply (lit "ProxyType[$i]") (some (lit "1")) false Settings.new;
}

abbrev after_files : KioslavercRead
after_files = elim (read_layers valid two_files (lit "/home/a/.config" ∷ []) locked_type) [
  | ok r ↦ r
  | err e ↦ nothing_read
]

read_layers-locked_example :
    after_files.settings.entries (lit "ProxyType") ≡ locked_type.settings.entries (lit "ProxyType")
unfolding read_layers apply_proxy_settings apply text_ops group_header
read_layers-locked_example =
    read_layers-locked valid two_files (lit "ProxyType") (lit "/home/a/.config" ∷ []) locked_type
      after_files refl refl

abbrev lost_slot : KioslavercSettings
lost_slot = insert (lit "httpProxy") (lit "[") (insert (lit "ProxyType") (lit "1") Settings.new)

config_from_kioslaverc-direct_iff_example :
    (config_from_kioslaverc (λ name. none) 7 lost_slot ≡ ok direct_config)
    ↔ (reads_direct lost_slot ≡ true)
config_from_kioslaverc-direct_iff_example =
    config_from_kioslaverc-direct_iff (λ name. none) 7 lost_slot

-- `Proxy: evil:1` of a request, in a slot for HTTPS.
abbrev forged_env : Text → Option Text
forged_env name =
    if text_eq name (lit "REQUEST_METHOD")
    then some (lit "GET")
    else if text_eq name (lit "HTTP_PROXY")
    then some (lit "evil:1")
    else none

abbrev forged_slot : KioslavercSettings
forged_slot = insert (lit "httpsProxy") (lit "HTTP_PROXY") Settings.new

refused : env_mode forged_env 7 forged_slot ≡ err (cgi_http_proxy (lit "HTTP_PROXY"))
unfolding env_mode insert text text_ops needs_expansion forgeable_by_a_request_header
refused = refl
