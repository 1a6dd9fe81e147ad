-- ===== src/Config/Env.antt =====
-- src/env.rs: `ProxyEnv`, read from a list of variables. The source's `cfg!(windows)` is the
-- argument `on_windows`, and its `HashMap` of variables an association list, of which the first entry for a name counts.
use proxy_watch.Bypass.Lists.{no_proxy}
use proxy_watch.Bypass.Rules
use proxy_watch.Bypass.Rules.{BypassRules, is_empty}
use proxy_watch.Crates.{Crates}
use proxy_watch.Diagnostic
use proxy_watch.Diagnostic.{RejectedValue, invalid_proxy_endpoint, environment_variable, for_scheme}
use proxy_watch.Endpoint.{ProxyEndpoint, use_endpoint, disabled, endpoint, parse_endpoint}
use proxy_watch.Error.{Error, cgi_http_proxy}
use proxy_watch.Mode.{ProxyMode, direct, manual, with_rejected}
use proxy_watch.Mode.Table.{Slots, no_slots, get, insert, no_entries}
use proxy_watch.Prelude.{
  ℕ, Bool, true, false, not, ◌&&◌, ◌||◌, Option, none, some, List, [], ◌∷◌, ◌++◌, ltb, ◌==◌,
  if◌then◌else◌, is_nil, map_option, or_option, and_then,
}
use proxy_watch.Prelude.Result.{Result, ok, err}
use proxy_watch.Scheme.{Scheme}
use proxy_watch.Text.{Text, lit, upper, eq_ignore_case, is_whitespace, text_eq, trim_with}

pub record ProxyEnv : Type 0 where
  pub per_scheme : Slots
  pub bypass : BypassRules
  pub rejected : List RejectedValue
  pub captured_at : ℕ

abbrev pub Vars : Type 0
Vars = List (Text × Text)

abbrev pub cgi_marker : Text
cgi_marker = lit "REQUEST_METHOD"

abbrev pub scheme_vars : List (Scheme × Text)
scheme_vars =
    (Scheme.http, lit "http_proxy")
    ∷ (Scheme.https, lit "https_proxy")
    ∷ (Scheme.ftp, lit "ftp_proxy")
    ∷ (Scheme.all, lit "all_proxy")
    ∷ []

unfoldable pub get_var : Text → Vars → Option Text
get_var name [] = none
get_var name ((k, v) ∷ vars) = if text_eq k name then some v else get_var name vars

-- The order of `String`, by the code points.
text_lt : Text → Text → Bool
text_lt [] [] = false
text_lt [] (y ∷ ys) = true
text_lt (x ∷ xs) [] = false
text_lt (x ∷ xs) (y ∷ ys) = ltb x y || x == y && text_lt xs ys

abbrev smaller_key : Text × Text → Option (Text × Text) → Option (Text × Text)
smaller_key a none = some a
smaller_key a (some b) = if text_lt b.0 a.0 then some b else some a

-- The variable with the least name among those that are `name` in some case.
unfoldable pub any_case : Text → Vars → Option (Text × Text)
unfolding text_lt
any_case name [] = none
any_case name ((k, v) ∷ vars) =
    let rest = any_case name vars in if eq_ignore_case k name then smaller_key (k, v) rest else rest

abbrev value_of : Option (Text × Text) → Option Text
value_of o = map_option (λ r. r.1) o

module _ (on_windows : Bool) where
  abbrev any_case_on_windows : Text → Vars → Option (Text × Text)
  any_case_on_windows name vars = if on_windows then any_case name vars else none

  unfoldable pub lookup_var : Text → Vars → Option Text
  lookup_var name vars =
      or_option (get_var name vars)
        (or_option (get_var (upper name) vars) (value_of (any_case_on_windows name vars)))

  abbrev set_and_not_empty : Option Text → Bool
  set_and_not_empty none = false
  set_and_not_empty (some v) = not (is_nil v)

  unfoldable pub in_cgi : Vars → Bool
  in_cgi vars =
      set_and_not_empty
        (or_option (get_var cgi_marker vars) (value_of (any_case_on_windows cgi_marker vars)))

-- The map, and the drops, that the loop over the four variables fills.
abbrev pub Filled : Type 0
Filled = Slots × List RejectedValue

module _ ⦃crates : Crates⦄ where
  read_value : Scheme → Text → Text → Filled → Filled
  read_value scheme name trimmed f =
      if is_nil trimmed
      then (insert scheme disabled f.0, f.1)
      else elim (parse_endpoint trimmed 80) [
        | ok e ↦ (insert scheme (use_endpoint e) f.0, f.1)
        | err _ ↦ (
          f.0,
          f.1
              ++ for_scheme (some scheme)
                  (Diagnostic.new invalid_proxy_endpoint (environment_variable name) trimmed)
                ∷ [],
        )
      ]

  read_variable : Scheme → Text → Option Text → Filled → Filled
  unfolding read_value
  read_variable scheme name none f = f
  read_variable scheme name (some value) f =
      read_value scheme name (trim_with is_whitespace value) f

  unfoldable pub read_schemes : Bool → Vars → List (Scheme × Text) → Filled → Filled
  unfolding read_variable
  read_schemes on_windows vars [] f = f
  read_schemes on_windows vars ((scheme, name) ∷ rest) f =
      read_schemes on_windows vars rest
        (read_variable scheme name (lookup_var on_windows name vars) f)

  read_bypass : Option Text → BypassRules
  read_bypass none = Rules.new
  read_bypass (some value) = no_proxy value

  read_all : Bool → ℕ → Vars → ProxyEnv
  unfolding read_schemes read_bypass
  read_all on_windows now vars =
      let filled = read_schemes on_windows vars scheme_vars (no_slots, []) in
      record {
        per_scheme = filled.0;
        bypass = read_bypass (lookup_var on_windows (lit "no_proxy") vars);
        rejected = filled.1;
        captured_at = now;
      }

  -- `ProxyEnv::from_vars`: under CGI, an `http_proxy` in any case is refused.
  unfoldable pub from_vars : Bool → ℕ → Vars → Result Error ProxyEnv
  unfolding read_all
  from_vars on_windows now vars =
      elim (if in_cgi on_windows vars then any_case (lit "http_proxy") vars else none) [
        | some v ↦ err (cgi_http_proxy v.0)
        | none ↦ ok (read_all on_windows now vars)
      ]

unfoldable pub env_is_empty : ProxyEnv → Bool
env_is_empty e = no_entries e.per_scheme && is_nil e.rejected

unfoldable pub is_configured : ProxyEnv → Bool
is_configured e = not (no_entries e.per_scheme) || not (is_empty e.bypass)

unfoldable pub env_endpoint_for : Scheme → ProxyEnv → Option ProxyEndpoint
env_endpoint_for scheme e =
    and_then (or_option (get e.per_scheme scheme) (get e.per_scheme Scheme.all)) endpoint

unfoldable pub to_mode : ProxyEnv → ProxyMode
to_mode e =
    if env_is_empty e then direct else with_rejected e.rejected (manual e.per_scheme e.bypass)
