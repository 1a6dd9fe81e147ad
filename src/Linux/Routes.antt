-- ===== src/Linux/Routes.antt =====
-- src/sys/linux/backend.rs: what the configuration of the two stores is.
use proxy_watch.Config
use proxy_watch.Config.{
  ProxyConfig, ProxyConfigSource, source_eq, Source, from_ordered_sources, with_fallbacks,
}
use proxy_watch.Desktop.{
  Desktop, gnome, kde, unknown, Store, Reading, absent, unset, configured, read_in_order,
  note_compiled_out, assemble, order, result_from, is_configured_reading, is_absent, source_of,
}
use proxy_watch.Error.{Error}
use proxy_watch.Linux.{stores_config}
use proxy_watch.Mode.{ProxyMode, direct}
use proxy_watch.Prelude.{
  ℕ, Bool, true, false, not, ◌&&◌, ◌||◌, Option, none, some, ◌≡◌, arith, any, or_option, unwrap_or,
  if◌then◌else◌,
}
use proxy_watch.Prelude.Result.{Result, ok, err, is_ok}

abbrev pub mode_in : Result Error Reading → Option ProxyMode
mode_in (ok (configured source mode)) = some mode
mode_in (ok absent) = none
mode_in (ok unset) = none
mode_in (err e) = none

-- Whether a store answers at all: it may say nothing, but it is there.
abbrev pub is_there : Result Error Reading → Bool
is_there (ok r) = not (is_absent r)
is_there (err e) = false

abbrev pub is_leading : Result Error Reading → Bool
is_leading (ok r) = is_configured_reading r
is_leading (err e) = false

abbrev pub effective_of : Result Error ProxyConfig → Option ProxyMode
effective_of (ok c) = some c.effective
effective_of (err e) = none

abbrev pub falls_back_from : ProxyConfigSource → Result Error ProxyConfig → Bool
falls_back_from source (ok c) = any (λ s. source_eq s source) c.fallbacks
falls_back_from source (err e) = false

-- Both stores answer and one of them is there, or the leading one is configured.
abbrev pub is_settled : Result Error Reading → Result Error Reading → Bool
is_settled leading trailing =
    is_leading leading
    || (is_ok leading && (is_ok trailing && (is_there leading || is_there trailing)))

-- What the configuration is, by the answers of the leading and of the trailing store.
abbrev pub Settles :
    ProxyConfigSource
    → Result Error Reading
    → Result Error Reading
    → Result Error ProxyConfig
    → Type 0
Settles trailing_source leading trailing r =
    (effective_of r ≡ (
      if is_settled leading trailing
      then some (unwrap_or (or_option (mode_in leading) (mode_in trailing)) direct)
      else none))
    × ((not (is_ok r) || (is_ok trailing || falls_back_from trailing_source r)) ≡ true)

-- The configuration of the two stores: there is one exactly where the leading store is configured,
-- or both stores answer and one of them is there; its effective mode is that of the leading store
-- if it is configured, else that of the other, else direct; and where the other one failed, the
-- fallbacks name it.
pub stores_config-effective :
    (now : ℕ) (compiled_in : Store → Bool) (desktop : Desktop) (g k : Result Error Reading)
    → Settles
        (source_of (order desktop).1)
        (result_from (order desktop).0 g k)
        (result_from (order desktop).1 g k)
        (stores_config now compiled_in desktop g k)
unfolding stores_config Config.new read_in_order note_compiled_out assemble from_ordered_sources
    with_fallbacks
stores_config-effective now compiled_in kde g k = (ground arith, ground arith)
stores_config-effective now compiled_in gnome g k = (ground arith, ground arith)
stores_config-effective now compiled_in unknown g k = (ground arith, ground arith)
