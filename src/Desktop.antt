-- ===== src/Desktop.antt =====
-- src/sys/linux/desktop.rs: which desktop is running, and the two stores in its order.
use proxy_watch.Config.{
  ProxyConfig, ProxyConfigSource, gsettings, kioslaverc, Source, from_ordered_sources,
}
use proxy_watch.Error.{Error}
use proxy_watch.Mode.{ProxyMode}
use proxy_watch.Prelude.{
  ℕ, Bool, true, false, not, ◌&&◌, ◌||◌, Option, none, some, List, [], ◌∷◌, ◌++◌, ◌==◌,
  if◌then◌else◌, any, map, is_nil, is_some, unwrap_or,
}
use proxy_watch.Prelude.Result.{Result, ok, err, ◌>>=◌}
use proxy_watch.Text.{Text, lit, lower, is_whitespace, trim_with, text_eq, split}

pub data Store : Type 0 where
  gsettings_store kioslaverc_store : Store

pub data Desktop : Type 0 where
  gnome kde unknown : Desktop

abbrev kde_tokens : List Text
kde_tokens = lit "kde" ∷ lit "plasma" ∷ []

abbrev gnome_tokens : List Text
gnome_tokens =
    lit "gnome"
    ∷ lit "gnome-classic"
    ∷ lit "gnome-flashback"
    ∷ lit "unity"
    ∷ lit "x-cinnamon"
    ∷ lit "cinnamon"
    ∷ lit "mate"
    ∷ lit "pantheon"
    ∷ []

abbrev folded : Text → Text
folded t = lower (trim_with is_whitespace t)

abbrev among : List Text → Text → Bool
among names t = any (λ n. text_eq n t) names

classify_tokens : List Text → Desktop
classify_tokens tokens =
    if any (among kde_tokens) tokens
    then kde
    else if any (among gnome_tokens) tokens
    then gnome
    else unknown

unfoldable pub classify : Option Text → Desktop
unfolding classify_tokens
classify none = unknown
classify (some value) = classify_tokens (map folded (split (λ c. c == b':') value))

unfoldable pub classify_desktop_session : Text → Desktop
classify_desktop_session value =
    let t = folded value in
    if among (lit "gnome" ∷ lit "mate" ∷ []) t
    then gnome
    else if among (lit "kde4" ∷ lit "kde-plasma" ∷ lit "kde" ∷ []) t
    then kde
    else unknown

-- The first answer that is no `unknown`.
abbrev or_desktop : Desktop → Desktop → Desktop
or_desktop unknown d = d
or_desktop gnome d = gnome
or_desktop kde d = kde

abbrev is_blank : Option Text → Bool
is_blank none = true
is_blank (some value) = is_nil (trim_with is_whitespace value)

unfoldable pub classify_with_fallback : Option Text → Option Text → Bool → Bool → Desktop
classify_with_fallback current session gnome_id kde_session = or_desktop (classify current) (
    if not (is_blank current)
    then unknown
    else or_desktop (classify_desktop_session (unwrap_or session []))
        (if gnome_id then gnome else if kde_session then kde else unknown))

-- `current`, from the variables of the environment as texts.
unfoldable pub current_desktop : (Text → Option Text) → Desktop
unfolding classify classify_desktop_session classify_with_fallback
current_desktop env =
    classify_with_fallback (env (lit "XDG_CURRENT_DESKTOP")) (env (lit "DESKTOP_SESSION"))
      (is_some (env (lit "GNOME_DESKTOP_SESSION_ID"))) (is_some (env (lit "KDE_FULL_SESSION")))

-- The leading store, and the other one.
abbrev pub order : Desktop → Store × Store
order kde = (kioslaverc_store, gsettings_store)
order gnome = (gsettings_store, kioslaverc_store)
order unknown = (gsettings_store, kioslaverc_store)

-- The answer of a store: it is not there, it says nothing, or it is configured.
pub data Reading : Type 0 where
  absent unset : Reading
  configured : ProxyConfigSource → ProxyMode → Reading

abbrev pub is_configured_reading : Reading → Bool
is_configured_reading (configured source mode) = true
is_configured_reading absent = false
is_configured_reading unset = false

abbrev pub is_absent : Reading → Bool
is_absent absent = true
is_absent unset = false
is_absent (configured source mode) = false

abbrev pub source_of : Store → ProxyConfigSource
source_of gsettings_store = gsettings
source_of kioslaverc_store = kioslaverc

abbrev leads : Option Reading → Bool
leads none = false
leads (some r) = is_configured_reading r

-- A store that fails behind a configured one is as good as absent, and is noted.
read_store_fail_soft :
    Store → Option Reading → Result Error Reading → Result Error (Reading × List ProxyConfigSource)
read_store_fail_soft store leading (ok reading) = ok (reading, [])
read_store_fail_soft store leading (err e) =
    if leads leading then ok (absent, source_of store ∷ []) else err e

-- The readings of GNOME and of KDE, with the fallbacks noted.
pub record Readings : Type 0 where
  pub gsettings_reading : Reading
  pub kioslaverc_reading : Reading
  pub fallbacks : List ProxyConfigSource

abbrev pub reading_from : Store → Readings → Reading
reading_from gsettings_store r = r.gsettings_reading
reading_from kioslaverc_store r = r.kioslaverc_reading

abbrev pub result_from {ℓ} : {A : Type ℓ} → Store → A → A → A
result_from gsettings_store g k = g
result_from kioslaverc_store g k = k

abbrev placed : Store → Reading → Reading → List ProxyConfigSource → Readings
placed gsettings_store leading trailing noted = record {
  gsettings_reading = leading;
  kioslaverc_reading = trailing;
  fallbacks = noted;
}
placed kioslaverc_store leading trailing noted = record {
  gsettings_reading = trailing;
  kioslaverc_reading = leading;
  fallbacks = noted;
}

unfoldable pub read_in_order :
    Desktop → Result Error Reading → Result Error Reading → Result Error Readings
unfolding read_store_fail_soft
read_in_order desktop g k =
    let (first, second) = order desktop in
    read_store_fail_soft first none (result_from first g k) >>= λ l.
    read_store_fail_soft second (some l.0) (result_from second g k) >>= λ t.
    ok (placed first l.0 t.0 (l.1 ++ t.1))

-- The leading store that this build does not have, where the other one is there.
unfoldable pub note_compiled_out : Desktop → (Store → Bool) → Readings → Readings
note_compiled_out desktop compiled_in r =
    let (first, second) = order desktop in
    if compiled_in first || is_absent (reading_from second r)
    then r
    else record r { fallbacks = r.fallbacks ++ source_of first ∷ [] }

abbrev source_in : Reading → List Source
source_in (configured source mode) = (source, mode) ∷ []
source_in absent = []
source_in unset = []

unfoldable pub assemble : ℕ → Desktop → Readings → Option ProxyConfig
assemble now desktop r =
    let (first, second) = order desktop in
    if is_absent r.gsettings_reading && is_absent r.kioslaverc_reading
    then none
    else some (
        from_ordered_sources now
          (source_in (reading_from first r) ++ source_in (reading_from second r)))
