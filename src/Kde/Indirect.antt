-- ===== src/Kde/Indirect.antt =====
-- src/sys/linux/kioslaverc.rs: `env_mode`, where the settings name environment variables. Reading a
-- variable is the argument `env`, with the value as a text, and the time of the capture is `now`.
pub mod Forged
use proxy_watch.Bypass.Lists.{kde_no_proxy_for}
use proxy_watch.Bypass.Match.{nothing}
use proxy_watch.Bypass.Rules
use proxy_watch.Bypass.Rules.{BypassRules}
use proxy_watch.Config.Env.{ProxyEnv, Vars, from_vars, env_is_empty, cgi_marker}
use proxy_watch.Crates.{Crates}
use proxy_watch.Diagnostic.{RejectedValue, unsupported_mapping}
use proxy_watch.Error.{Error, cgi_http_proxy}
use proxy_watch.Kde.Manual.{dropped, attributed_scheme}
use proxy_watch.Kde.Settings.{
  KioslavercSettings, SlotKeys, slots, text, needs_expansion, key_no_proxy_for,
}
use proxy_watch.Mode.{ProxyMode, direct, manual, with_rejected}
use proxy_watch.Prelude.{
  ℕ, Bool, true, false, not, ◌&&◌, Option, none, some, List, [], ◌∷◌, ◌++◌, if◌then◌else◌, is_nil,
}
use proxy_watch.Prelude.Result.{Result, ok, err, ◌>>=◌}
use proxy_watch.Prelude.Take.{take}
use proxy_watch.Text.{Text, lit, eq_ignore_case}

-- A name that CGI gives to a header of a request.
unfoldable pub forgeable_by_a_request_header : Text → Bool
unfolding take
forgeable_by_a_request_header name = eq_ignore_case (take 5 name) (lit "HTTP_")

-- The variables found, and the slots that cannot be read.
pub record Gathered : Type 0 where
  pub vars : Vars
  pub skipped : List RejectedValue

abbrev pub nothing_gathered : Gathered
nothing_gathered = record { vars = []; skipped = [] }

abbrev skip : RejectedValue → Gathered → Gathered
skip v g = record g { skipped = g.skipped ++ v ∷ [] }

abbrev found : Text → Text → Gathered → Gathered
found canonical value g = record g { vars = g.vars ++ (canonical, value) ∷ [] }

abbrev set_and_not_empty : Option Text → Bool
set_and_not_empty none = false
set_and_not_empty (some v) = not (is_nil v)

module _ (env : Text → Option Text) where
  abbrev pub kde_in_cgi : Bool
  kde_in_cgi = set_and_not_empty (env cgi_marker)

  -- The variable that the settings name, refused where a request may have set it.
  variable : Text → Text → Gathered → Result Error Gathered
  variable name canonical g = elim (env name) [
    | none ↦ ok g
    | some value ↦
        if kde_in_cgi && forgeable_by_a_request_header name
        then err (cgi_http_proxy name)
        else ok (found canonical value g)
  ]

  -- A slot that names a variable.
  gather_named :
      KioslavercSettings → SlotKeys → Text → Option Text → Gathered → Result Error Gathered
  unfolding variable
  gather_named s slot name none g =
      ok (
        skip (dropped unsupported_mapping slot (attributed_scheme slot) (slot.key ++ b'=' ∷ name))
          g)
  gather_named s slot name (some canonical) g =
      if needs_expansion s slot.key
      then ok (skip (dropped unsupported_mapping slot slot.scheme name) g)
      else variable name canonical g

  gather : KioslavercSettings → SlotKeys → Gathered → Result Error Gathered
  unfolding gather_named
  gather s slot g = elim (text s slot.key) [
    | none ↦ ok g
    | some name ↦ gather_named s slot name slot.env_var g
  ]

  gather_slots : KioslavercSettings → List SlotKeys → Gathered → Result Error Gathered
  unfolding gather
  gather_slots s [] g = ok g
  gather_slots s (slot ∷ rest) g = gather s slot g >>= gather_slots s rest

  -- The bypass list, if its variable is set.
  no_proxy_var : Option Text → Result Error (Option Text)
  no_proxy_var none = ok none
  no_proxy_var (some name) = elim (env name) [
    | none ↦ ok none
    | some value ↦
        if kde_in_cgi && forgeable_by_a_request_header name
        then err (cgi_http_proxy name)
        else ok (some value)
  ]

  abbrev with_no_proxy : Option Text → Vars → Vars
  with_no_proxy none vars = vars
  with_no_proxy (some value) vars = vars ++ (lit "no_proxy", value) ∷ []

  module _ ⦃crates : Crates⦄ where
    kde_bypass : Option Text → BypassRules
    kde_bypass none = Rules.new
    kde_bypass (some value) = kde_no_proxy_for value

    resolved_mode : Option Text → List RejectedValue → ProxyEnv → ProxyMode
    unfolding kde_bypass
    resolved_mode no_proxy skipped resolved =
        if env_is_empty resolved && is_nil skipped
        then direct
        else with_rejected (resolved.rejected ++ skipped) (
            manual resolved.per_scheme (record (kde_bypass no_proxy) {
              implicit = nothing;
              ipv4_mapped_as_ipv4 = false;
              strip_trailing_dot = false;
            }))

    -- The program runs this on Linux only, so `from_vars` is not on Windows.
    unfoldable pub env_mode : ℕ → KioslavercSettings → Result Error ProxyMode
    unfolding gather_slots no_proxy_var resolved_mode
    env_mode now s = gather_slots s slots nothing_gathered >>= λ g.
        no_proxy_var (text s key_no_proxy_for) >>= λ no_proxy.
        from_vars false now (with_no_proxy no_proxy g.vars) >>= λ resolved.
        ok (resolved_mode no_proxy g.skipped resolved)
