-- ===== src/Kde/Indirect/Forged.antt =====
-- src/sys/linux/kioslaverc.rs: which variables `env_mode` refuses.
use proxy_watch.Config.Env.{Vars, get_var, cgi_marker}
use proxy_watch.Crates.{Crates}
use proxy_watch.Error.{Error, cgi_http_proxy}
use proxy_watch.Kde.Indirect.{Gathered, with_no_proxy, forgeable_by_a_request_header}
use proxy_watch.Kde.Settings.{
  KioslavercSettings, SlotKeys, slots, text, needs_expansion, key_no_proxy_for,
}
use proxy_watch.Prelude.{Bool, true, false, not, ◌&&◌, ◌||◌, Option, none, some, ◌≡◌, any, is_some}
use proxy_watch.Prelude.Result.{Result, ok, err}
use proxy_watch.Text.{Text, text_eq}

module _ (env : Text → Option Text) where
  -- A variable that is set, under a name that a request may have given it.
  abbrev pub is_forged : Text → Bool
  is_forged name = is_some (env name) && forgeable_by_a_request_header name

  -- The slot names such a variable, and the program reads it.
  abbrev pub names_forged : KioslavercSettings → SlotKeys → Bool
  names_forged s slot = elim (text s slot.key) [
    | none ↦ false
    | some name ↦ is_some slot.env_var && (not (needs_expansion s slot.key) && is_forged name)
  ]

  abbrev bypass_forged : Option Text → Bool
  bypass_forged none = false
  bypass_forged (some name) = is_forged name

  -- A slot, or the bypass list, names such a variable.
  abbrev pub reads_forged : KioslavercSettings → Bool
  reads_forged s = any (names_forged s) slots || bypass_forged (text s key_no_proxy_for)

-- The refusal, which names a variable that a request may have set.
abbrev pub is_refusal : Error → Bool
is_refusal (cgi_http_proxy name) = forgeable_by_a_request_header name
is_refusal _ = false

-- A step that is refused exactly where it is told, and else gives what the predicate holds of.
abbrev Gives : {A : Type 0} → (A → Type 0) → Bool → Result Error A → Type 0
Gives P b (ok a) = (b ≡ false) × P a
Gives P b (err e) = (b ≡ true) × (is_refusal e ≡ true)

-- The variables gathered do not hold the marker of CGI.
abbrev IsUnmarked : Gathered → Type 0
IsUnmarked g = get_var cgi_marker g.vars ≡ none

-- The variable of a slot is not the marker of CGI.
abbrev is_apart : Option Text → Bool
is_apart none = true
is_apart (some c) = not (text_eq c cgi_marker)

-- The answer is that refusal.
abbrev pub refuses : {A : Type 0} → Result Error A → Bool
refuses (ok a) = false
refuses (err e) = is_refusal e

module _ (env : Text → Option Text) where
  module _ (s : KioslavercSettings) where
    abbrev AddsNone : Option Text → Type 0
    AddsNone o =
        (vars : Vars)
        → get_var cgi_marker vars ≡ none
        → get_var cgi_marker (with_no_proxy env o vars) ≡ none
