-- ===== src/Bypass/Rules/Dedup.antt =====
-- Collapsing repeated entries never changes a verdict.
use proxy_watch.Bypass.Pattern.{host_key, host_ip, HostPattern, exact, suffix, wildcard}
use proxy_watch.Bypass.Rules.{
  BypassRules, Act, subtracts, bypasses, is_subtract, pattern_eq, dedup_from, dedup_patterns,
  bypass_loopback, walk, act_on, matches_text, matches,
}
use proxy_watch.Bypass.Rules.Walk.{forward, overwrite, walk-reverse}
use proxy_watch.Crates.{Host, Crates}
use proxy_watch.Prelude.{
  ℕ, Bool, true, false, Option, List, [], ◌∷◌, ◌≡◌, refl, sym, ◌∙◌, inl, inr, arith, any, reverse,
  All, Bool-cases,
}
use proxy_watch.Text.{Text, text_eq_iff}
use proxy_watch.Text.Address.{IpAddr}

-- Equal entries are one entry.
pub pattern_eq→eq : (p q : HostPattern) → pattern_eq p q ≡ true → p ≡ q
unfolding pattern_eq
pattern_eq→eq (exact (Host.domain a) p) (exact (Host.domain b) q) h =
    ground (arith, text_eq_iff a b)
pattern_eq→eq (suffix s m p) (suffix t n q) h = ground (arith, text_eq_iff s t)
pattern_eq→eq (wildcard s p) (wildcard t q) h = ground (arith, text_eq_iff s t)
pattern_eq→eq p q h = ground arith

module _ (seen ps : List HostPattern) (p : HostPattern) where
  dedup_from-token : is_subtract p ≡ true → dedup_from seen (p ∷ ps) ≡ p ∷ dedup_from [] ps
  unfolding dedup_from
  dedup_from-token h = ground arith

  module _ (plain : is_subtract p ≡ false) where
    dedup_from-old : any (pattern_eq p) seen ≡ true → dedup_from seen (p ∷ ps) ≡ dedup_from seen ps
    unfolding dedup_from
    dedup_from-old h = ground arith

    dedup_from-new :
        any (pattern_eq p) seen ≡ false → dedup_from seen (p ∷ ps) ≡ p ∷ dedup_from (p ∷ seen) ps
    unfolding dedup_from
    dedup_from-new h = ground arith

module _ (act : HostPattern → Act) (unnamed named : Bool) where
  -- What is known of the entries seen since the last token: one that bypasses has been counted.
  abbrev Counted : Bool → HostPattern → Type 0
  Counted v q = act q ≡ bypasses → v ≡ named

  Counted-overwrite :
      (seen : List HostPattern) (v : Bool) (p : HostPattern)
      → (act p ≡ subtracts → ⊥)
      → All (Counted v) seen
      → All (Counted (overwrite act unnamed named (act p) v)) seen
  Counted-overwrite [] v p h c = tt
  Counted-overwrite (q ∷ seen) v p h c =
      (λ e. ground (arith, c.0 e), Counted-overwrite seen v p h c.1)

  repeat-skips :
      (p : HostPattern) (seen : List HostPattern) (v : Bool)
      → (act p ≡ subtracts → ⊥)
      → any (pattern_eq p) seen ≡ true
      → All (Counted v) seen
      → overwrite act unnamed named (act p) v ≡ v
  repeat-skips p [] v n h c = cc
  repeat-skips p (q ∷ seen) v n h c = elim (Bool-cases (pattern_eq p q)) [
    | inl e ↦ ground (arith, c.0, pattern_eq→eq p q e)
    | inr e ↦ repeat-skips p seen v n (ground arith) c.1
  ]

  forward-dedup_from :
      ((p : HostPattern) → act p ≡ subtracts → is_subtract p ≡ true)
      → (seen ps : List HostPattern) (v : Bool) → All (Counted v) seen
      → forward act unnamed named v (dedup_from seen ps) ≡ forward act unnamed named v ps
  unfolding dedup_from forward
  forward-dedup_from only seen [] v c = refl
  forward-dedup_from only seen (p ∷ ps) v c = elim (Bool-cases (is_subtract p)) [
    | inl sub ↦
        rw (dedup_from-token seen ps p sub)
          (forward-dedup_from only [] ps (overwrite act unnamed named (act p) v) tt)
    | inr plain ↦
        let n : (act p ≡ subtracts → ⊥) = λ e. cc (only p e, plain) in
        elim (Bool-cases (any (pattern_eq p) seen)) [
          | inl old ↦
              rw (dedup_from-old seen ps p plain old, repeat-skips p seen v n old c)
                (forward-dedup_from only seen ps v c)
          | inr new ↦ rw (dedup_from-new seen ps p plain new) (
              forward-dedup_from only (p ∷ seen) ps (overwrite act unnamed named (act p) v)
                ((λ e. ground arith), Counted-overwrite seen v p n c))
        ]
  ]

  pub walk-dedup_from :
      ((p : HostPattern) → act p ≡ subtracts → is_subtract p ≡ true)
      → (ps : List HostPattern) (v : Bool)
      → walk act unnamed named v (reverse (dedup_from [] ps))
        ≡ walk act unnamed named v (reverse ps)
  walk-dedup_from only ps v =
      walk-reverse act unnamed named (dedup_from [] ps) v
      ∙ forward-dedup_from only [] ps v tt
      ∙ sym (walk-reverse act unnamed named ps v)

any-dedup_from :
    (seen ps : List HostPattern) → any is_subtract (dedup_from seen ps) ≡ any is_subtract ps
unfolding dedup_from
any-dedup_from seen [] = refl
any-dedup_from seen (p ∷ ps) = elim (Bool-cases (is_subtract p)) [
  | inl sub ↦ rw (dedup_from-token seen ps p sub) (ground arith)
  | inr plain ↦ elim (Bool-cases (any (pattern_eq p) seen)) [
    | inl old ↦ rw (dedup_from-old seen ps p plain old, plain) (any-dedup_from seen ps)
    | inr new ↦
        rw (dedup_from-new seen ps p plain new) (ground (arith, any-dedup_from (p ∷ seen) ps))
  ]
]

module _ ⦃crates : Crates⦄ where
  act_on-subtracts :
      (implicit : Bool) (text entry_text : Text) (ip : Option IpAddr) (port : Option ℕ)
      (reduce : Bool) (p : HostPattern)
      → act_on implicit text entry_text ip port reduce p ≡ subtracts
      → is_subtract p ≡ true
  unfolding act_on
  act_on-subtracts implicit text entry_text ip port reduce p h = ground arith

  walk-act_on-dedup_from :
      (implicit : Bool) (text entry_text : Text) (ip : Option IpAddr) (port : Option ℕ)
      (reduce unnamed named v : Bool) (ps : List HostPattern)
      → walk
          (act_on implicit text entry_text ip port reduce)
          unnamed
          named
          v
          (reverse (dedup_from [] ps))
        ≡ walk (act_on implicit text entry_text ip port reduce) unnamed named v (reverse ps)
  walk-act_on-dedup_from implicit text entry_text ip port reduce unnamed named v ps =
      walk-dedup_from (act_on implicit text entry_text ip port reduce) unnamed named
        (act_on-subtracts implicit text entry_text ip port reduce) ps v

  matches_text-dedup :
      (r : BypassRules) (text : Text) (written : Option IpAddr) (port : Option ℕ)
      → matches_text (dedup_patterns r) text written port ≡ matches_text r text written port
  unfolding matches_text dedup_patterns bypass_loopback
  matches_text-dedup r text written port = rw any-dedup_from (rw walk-act_on-dedup_from)

  -- Collapsing the repeats of a finished list leaves the verdict on every destination, whatever
  -- the switches, and also where the list holds the `<-loopback>` token between two repeats.
  pub matches-dedup_patterns :
      (r : BypassRules) (host : Host) (port : Option ℕ)
      → matches (dedup_patterns r) host port ≡ matches r host port
  unfolding matches
  matches-dedup_patterns r host port =
      ground (arith, matches_text-dedup r (host_key host) (host_ip host) port)
