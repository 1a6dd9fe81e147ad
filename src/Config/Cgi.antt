-- ===== src/Config/Cgi.antt =====
-- The refusal of `http_proxy` under CGI.
use proxy_watch.Config.Env.{Vars, any_case, in_cgi, from_vars, ProxyEnv}
use proxy_watch.Crates.{Crates}
use proxy_watch.Error.{Error, cgi_http_proxy}
use proxy_watch.Prelude.{
  ℕ, Bool, true, false, not, ◌&&◌, none, some, [], ◌∷◌, ◌≡◌, refl, arith, any, is_some, Bool-cases,
  Option-cases, inl, inr, ap,
}
use proxy_watch.Prelude.Result.{ok, err, is_ok}
use proxy_watch.Text.{Text, lit, eq_ignore_case}

-- Whether a variable has the name in some case.
abbrev pub has_any_case : Text → Vars → Bool
has_any_case name vars = any (λ r. eq_ignore_case r.0 name) vars

any_case-is_some :
    (name : Text) (vars : Vars) → is_some (any_case name vars) ≡ has_any_case name vars
unfolding any_case
any_case-is_some name [] = refl
any_case-is_some name ((k, v) ∷ vars) = ground (arith, any_case-is_some name vars)

any_case-name :
    (name : Text) (vars : Vars) (r : Text × Text)
    → any_case name vars ≡ some r
    → eq_ignore_case r.0 name ≡ true
unfolding any_case
any_case-name name [] r h = cc h
any_case-name name ((k, v) ∷ vars) r h = elim (Option-cases (any_case name vars)) [
  | inl missing ↦ ground (arith, h, missing)
  | inr (b, found) ↦ ground (arith, h, found, any_case-name name vars b found)
]

module _ ⦃crates : Crates⦄ where
  module _ (on_windows : Bool) (now : ℕ) (vars : Vars) where
    from_vars-refused :
        (r : Text × Text)
        → in_cgi on_windows vars ≡ true
        → any_case (lit "http_proxy") vars ≡ some r
        → from_vars on_windows now vars ≡ err (cgi_http_proxy r.0)
    unfolding from_vars
    from_vars-refused r cgi found = rw (from_vars, cgi, found) refl

    from_vars-unset :
        any_case (lit "http_proxy") vars ≡ none
        → (e : ProxyEnv) × (from_vars on_windows now vars ≡ ok e)
    unfolding from_vars
    from_vars-unset missing = elim (Bool-cases (in_cgi on_windows vars)) [
      | inl cgi ↦ rw (from_vars, cgi, missing) (_, refl)
      | inr plain ↦ rw (from_vars, plain) (_, refl)
    ]

    from_vars-plain :
        in_cgi on_windows vars ≡ false → (e : ProxyEnv) × (from_vars on_windows now vars ≡ ok e)
    unfolding from_vars
    from_vars-plain plain = rw (from_vars, plain) (_, refl)

    has-missing :
        any_case (lit "http_proxy") vars ≡ none → has_any_case (lit "http_proxy") vars ≡ false
    has-missing h = cc (any_case-is_some (lit "http_proxy") vars, ap is_some h)

    has-found :
        (r : Text × Text)
        → any_case (lit "http_proxy") vars ≡ some r
        → has_any_case (lit "http_proxy") vars ≡ true
    has-found r h = cc (any_case-is_some (lit "http_proxy") vars, ap is_some h)

  -- Reading the variables fails exactly under CGI with a variable `http_proxy` in some case, and the
  -- error then names such a variable.
  pub from_vars-cgi :
      (on_windows : Bool) (now : ℕ) (vars : Vars)
      → (is_ok (from_vars on_windows now vars)
          ≡ not (in_cgi on_windows vars && has_any_case (lit "http_proxy") vars))
        × ((e : Error)
            → from_vars on_windows now vars ≡ err e
            → (name : Text) × (e ≡ cgi_http_proxy name)
              × (eq_ignore_case name (lit "http_proxy") ≡ true))
  from_vars-cgi on_windows now vars = elim (Option-cases (any_case (lit "http_proxy") vars)) [
    | inl missing ↦
        let read = from_vars-unset on_windows now vars missing in
        (
          ground (arith, ap is_ok read.1, has-missing on_windows now vars missing),
          λ e h. absurd (cc (h, read.1)),
        )
    | inr (r, found) ↦ elim (Bool-cases (in_cgi on_windows vars)) [
      | inl cgi ↦
          let refused = from_vars-refused on_windows now vars r cgi found in
          (
            ground (arith, ap is_ok refused, has-found on_windows now vars r found, cgi),
            λ e h. (r.0, cc (h, refused), any_case-name (lit "http_proxy") vars r found),
          )
      | inr plain ↦
          let read = from_vars-plain on_windows now vars plain in
          (ground (arith, ap is_ok read.1, plain), λ e h. absurd (cc (h, read.1)))
    ]
  ]
