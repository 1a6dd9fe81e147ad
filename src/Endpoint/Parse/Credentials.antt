-- ===== src/Endpoint/Parse/Credentials.antt =====
-- When a parsed endpoint has credentials.
use proxy_watch.Crates.{Crates}
use proxy_watch.Endpoint.Base.{ProxyEndpoint}
use proxy_watch.Endpoint.Parse.{
  parse_scheme, cut_path, check_parts, cut_userinfo, parse_host_port, parse_endpoint,
  ends_authority,
}
use proxy_watch.Prelude.{
  ℕ, ◌||◌, Bool, false, Option, none, some, [], ◌∷◌, ◌≡◌, inl, inr, refl, arith, is_nil, is_some,
  Bool-cases, Option-cases, ap, sym, subst, ◌∙◌,
}
use proxy_watch.Prelude.Result.{ok, >>=-eq-ok}
use proxy_watch.Scheme.{ProxyScheme, proxy_scheme_from_str}
use proxy_watch.Text.{Text, lit, is_whitespace, has, trim_with, find_text, split_at, rsplit_once}

-- The value behind its scheme, if it has one.
abbrev pub behind_scheme : Text → Text
behind_scheme t = elim (find_text (lit "://") t) [ none ↦ t | some r ↦ r.1 ]

parse_scheme-rest :
    (t : Text) (s : Option ProxyScheme × Text) → parse_scheme t ≡ ok s → s.1 ≡ behind_scheme t
unfolding parse_scheme
parse_scheme-rest t s h = elim (Option-cases (find_text (lit "://") t)) [
  | inl absent ↦
      let e : (none, t) ≡ s = cc (rw (parse_scheme, absent) at h) in
      rw (behind_scheme, absent) (sym (ap (λ x. x.1) e))
  | inr (r, present) ↦ elim (Option-cases (proxy_scheme_from_str r.0)) [
    | inl unknown ↦ absurd (cc (rw (parse_scheme, present, unknown) at h))
    | inr (scheme, known) ↦
        let e : (some scheme, r.1) ≡ s = cc (rw (parse_scheme, present, known) at h) in
        rw (behind_scheme, present) (sym (ap (λ x. x.1) e))
  ]
]

has-split_at :
    (c : ℕ) (p : ℕ → Bool) (t : Text) (r : Text × Text)
    → split_at p t ≡ some r
    → has c t ≡ (has c r.0 || has c r.1)
unfolding split_at
has-split_at c p [] r h = absurd (cc h)
has-split_at c p (x ∷ t) r h = elim (Bool-cases (p x)) [
  | inl here ↦
      let e : ([], x ∷ t) ≡ r = cc (rw (split_at, here) at h) in
      subst (λ s. has c (x ∷ t) ≡ (has c s.0 || has c s.1)) e refl
  | inr later ↦ elim (Option-cases (split_at p t)) [
    | inl absent ↦ absurd (cc (rw (split_at, later, absent) at h))
    | inr (s, present) ↦
        let e : (x ∷ s.0, s.1) ≡ r = cc (rw (split_at, later, present) at h) in
        subst (λ s. has c (x ∷ t) ≡ (has c s.0 || has c s.1)) e
          (ground (arith, has-split_at c p t s present))
  ]
]

has-cut_path : (c : ℕ) (t : Text) → has c t ≡ (has c (cut_path t).0 || has c (cut_path t).1)
unfolding cut_path
has-cut_path c t = elim (Option-cases (split_at ends_authority t)) [
  | inl absent ↦ rw (cut_path, absent) (ground arith)
  | inr (r, present) ↦ rw (cut_path, present) (has-split_at c ends_authority t r present)
]

check_parts-eq :
    (input : Text) (cut : Text × Text) (kept : Text)
    → check_parts input cut ≡ ok kept
    → (kept ≡ cut.0) × (has b'@' cut.1 ≡ false)
unfolding check_parts
check_parts-eq input cut kept h = ground (arith, h)

rsplit_once-is_some : (d : ℕ) (t : Text) → is_some (rsplit_once d t) ≡ has d t
unfolding rsplit_once
rsplit_once-is_some d [] = refl
rsplit_once-is_some d (c ∷ t) = ground (arith, rsplit_once-is_some d t)

cut_userinfo-is_some : (t : Text) → is_some (cut_userinfo t).0 ≡ has b'@' t
unfolding cut_userinfo
cut_userinfo-is_some t = elim (Option-cases (rsplit_once b'@' t)) [
  | inl absent ↦ rw (cut_userinfo, absent) (sym (ap is_some absent) ∙ rsplit_once-is_some b'@' t)
  | inr (r, present) ↦
      rw (cut_userinfo, present) (sym (ap is_some present) ∙ rsplit_once-is_some b'@' t)
]

authority_at :
    (cut : Text × Text)
    → has b'@' cut.1 ≡ false
    → has b'@' cut.0 ≡ (has b'@' cut.0 || has b'@' cut.1)
authority_at cut h = ground (arith, h)

module _ ⦃crates : Crates⦄ where
  -- A parsed endpoint has credentials exactly where the value behind its scheme has an at-sign.
  pub parse_endpoint-auth :
      (input : Text) (default_port : ℕ) (e : ProxyEndpoint)
      → parse_endpoint input default_port ≡ ok e
      → is_some e.auth ≡ has b'@' (behind_scheme (trim_with is_whitespace input))
  unfolding parse_endpoint
  parse_endpoint-auth input default_port e h =
      elim (Bool-cases (is_nil (trim_with is_whitespace input))) [
        | inl blank ↦ absurd (cc (rw blank at h))
        | inr present ↦
            let trimmed = trim_with is_whitespace input in
            let s = >>=-eq-ok (parse_scheme trimmed) _ (rw present at h) in
            let c = >>=-eq-ok (check_parts input (cut_path s.0.1)) _ s.2 in
            let p = >>=-eq-ok (parse_host_port input (cut_userinfo c.0).1) _ c.2 in
            let checked = check_parts-eq input (cut_path s.0.1) c.0 c.1 in
            elim (Bool-cases p.0.2) [
              | inl empty ↦ absurd (cc (rw empty at p.2))
              | inr full ↦
                  let eq : (cut_userinfo c.0).0 ≡ e.auth = cc (rw full at p.2) in
                  sym (ap is_some eq)
                  ∙ cut_userinfo-is_some c.0
                  ∙ ap (has b'@') checked.0
                  ∙ authority_at (cut_path s.0.1) checked.1
                  ∙ sym (has-cut_path b'@' s.0.1)
                  ∙ ap (has b'@') (parse_scheme-rest trimmed s.0 s.1)
            ]
      ]
