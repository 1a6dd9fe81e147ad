-- ===== src/Util/Glob/Splits.antt =====
-- The last part of a glob, and how its parts are split off.
use mathlib.Core.List.{reverse-append, reverse-reverse}
use proxy_watch.Prelude.{
  ℕ, ◌==◌, Bool, true, false, none, some, List, [], ◌∷◌, ◌++◌, ◌≡◌, inl, inr, refl, ap, sym, ◌∙◌,
  arith, All, is_nil, reverse, Bool-cases, Option-cases, subst, ==_iff,
}
use proxy_watch.Text.{
  Text, has, text_eq, text_eq_iff, strip_prefix, strip_suffix, ends_with, split_once, rsplit_once,
  split, onto_first,
}
use proxy_watch.Util.Glob.Pieces.{
  strip_prefix-eq, strip_prefix-append, reach, reach-eq, reach-append,
}

bool_ext : (a b : Bool) → (a ≡ true → b ≡ true) → (b ≡ true → a ≡ true) → a ≡ b
bool_ext true true h k = refl
bool_ext true false h k = sym (h refl)
bool_ext false true h k = k refl
bool_ext false false h k = refl

text_eq_refl : (s : Text) → text_eq s s ≡ true
text_eq_refl s = (text_eq_iff s s).1 refl

ends_with-append : (s w : Text) → ends_with s (w ++ s) ≡ true
unfolding strip_suffix
ends_with-append s w =
    rw (strip_suffix, reverse-append w s, strip_prefix-append (reverse s) (reverse w)) refl

reach-ends_with : (s t : Text) → ends_with s t ≡ true → reach (text_eq s) t ≡ true
unfolding strip_suffix
reach-ends_with s t h = elim (Option-cases (strip_prefix (reverse s) (reverse t))) [
  | inl absent ↦ absurd (cc (rw (strip_suffix, absent) at h))
  | inr (v, present) ↦
      let e : t ≡ reverse v ++ s =
        sym (reverse-reverse t)
        ∙ ap reverse (strip_prefix-eq (reverse s) (reverse t) v present)
        ∙ reverse-append (reverse s) v
        ∙ ap (λ x. reverse v ++ x) (reverse-reverse s) in
      subst (λ x. reach (text_eq s) x ≡ true) (sym e)
        (reach-append (text_eq s) (reverse v) s (text_eq_refl s))
]

-- A text ends in another where the other is one of its ends.
pub reach-text_eq : (s t : Text) → reach (text_eq s) t ≡ ends_with s t
reach-text_eq s t =
    bool_ext (reach (text_eq s) t) (ends_with s t)
      (λ h.
        let r = reach-eq (text_eq s) t h in
        subst (λ x. ends_with s x ≡ true)
          (sym (r.2 ∙ ap (λ x. r.0 ++ x) (sym ((text_eq_iff s r.1).0 r.3))))
          (ends_with-append s r.0))
      (reach-ends_with s t)

pub split_once-none : (d : ℕ) (t : Text) → split_once d t ≡ none → has d t ≡ false
unfolding split_once
split_once-none d [] h = refl
split_once-none d (c ∷ t) h = ground (arith, h, split_once-none d t)

pub split_once-some :
    (d : ℕ) (t : Text) (r : Text × Text)
    → split_once d t ≡ some r
    → (t ≡ r.0 ++ d ∷ r.1) × (has d r.0 ≡ false)
unfolding split_once
split_once-some d [] r h = absurd (cc h)
split_once-some d (c ∷ t) r h = elim (Bool-cases (c == d)) [
  | inl here ↦
      let e : ([], t) ≡ r = cc (rw (split_once, here) at h) in
      subst (λ s. (c ∷ t ≡ s.0 ++ d ∷ s.1) × (has d s.0 ≡ false)) e
        (ap (λ x. x ∷ t) ((==_iff c d).0 here), refl)
  | inr later ↦ elim (Option-cases (split_once d t)) [
    | inl absent ↦ absurd (cc (rw (split_once, later, absent) at h))
    | inr (s, present) ↦
        let e : (c ∷ s.0, s.1) ≡ r = cc (rw (split_once, later, present) at h) in
        let rest = split_once-some d t s present in
        subst (λ s. (c ∷ t ≡ s.0 ++ d ∷ s.1) × (has d s.0 ≡ false)) e
          (ap (λ x. c ∷ x) rest.0, ground (arith, later, rest.1))
  ]
]

pub rsplit_once-none : (d : ℕ) (t : Text) → rsplit_once d t ≡ none → has d t ≡ false
unfolding rsplit_once
rsplit_once-none d [] h = refl
rsplit_once-none d (c ∷ t) h = elim (Option-cases (rsplit_once d t)) [
  | inl absent ↦ ground (arith, h, absent, rsplit_once-none d t absent)
  | inr (s, present) ↦ absurd (cc (rw (rsplit_once, present) at h))
]

pub rsplit_once-some :
    (d : ℕ) (t : Text) (r : Text × Text)
    → rsplit_once d t ≡ some r
    → (t ≡ r.0 ++ d ∷ r.1) × (has d r.1 ≡ false)
unfolding rsplit_once
rsplit_once-some d [] r h = absurd (cc h)
rsplit_once-some d (c ∷ t) r h = elim (Option-cases (rsplit_once d t)) [
  | inl absent ↦ elim (Bool-cases (c == d)) [
    | inl here ↦
        let e : ([], t) ≡ r = cc (rw (rsplit_once, absent, here) at h) in
        subst (λ s. (c ∷ t ≡ s.0 ++ d ∷ s.1) × (has d s.1 ≡ false)) e
          (ap (λ x. x ∷ t) ((==_iff c d).0 here), rsplit_once-none d t absent)
    | inr other ↦ absurd (cc (rw (rsplit_once, absent, other) at h))
  ]
  | inr (s, present) ↦
      let e : (c ∷ s.0, s.1) ≡ r = cc (rw (rsplit_once, present) at h) in
      let rest = rsplit_once-some d t s present in
      subst (λ s. (c ∷ t ≡ s.0 ++ d ∷ s.1) × (has d s.1 ≡ false)) e (ap (λ x. c ∷ x) rest.0, rest.1)
]

-- The parts of a text, each behind the one before and a star.
abbrev pub joined_by_stars : List Text → Text → Text
joined_by_stars [] last = last
joined_by_stars (p ∷ ps) last = p ++ b'*' ∷ joined_by_stars ps last

abbrev is_star : ℕ → Bool
is_star c = c == b'*'

joined-onto_first :
    (c : ℕ) (ps : List Text) (last : Text)
    → is_nil ps ≡ false
    → joined_by_stars (onto_first c ps) last ≡ c ∷ joined_by_stars ps last
joined-onto_first c [] last h = cc h
joined-onto_first c (p ∷ ps) last h = refl

split-star : (c : ℕ) (t : Text) → is_star c ≡ true → split is_star (c ∷ t) ≡ [] ∷ split is_star t
unfolding split
split-star c t h = rw (split, h) refl

split-plain :
    (c : ℕ) (t : Text) → is_star c ≡ false → split is_star (c ∷ t) ≡ onto_first c (split is_star t)
unfolding split
split-plain c t h = rw (split, h) refl

onto_first-ne_nil : (c : ℕ) (ps : List Text) → is_nil (onto_first c ps) ≡ false
onto_first-ne_nil c [] = refl
onto_first-ne_nil c (p ∷ ps) = refl

split-ne_nil : (t : Text) → is_nil (split is_star t) ≡ false
unfolding split
split-ne_nil [] = refl
split-ne_nil (c ∷ t) = elim (Bool-cases (is_star c)) [
  | inl star ↦ rw (split-star c t star) refl
  | inr plain ↦ rw (split-plain c t plain) (onto_first-ne_nil c (split is_star t))
]

pub joined-split : (t last : Text) → joined_by_stars (split is_star t) last ≡ t ++ b'*' ∷ last
unfolding split
joined-split [] last = refl
joined-split (c ∷ t) last = elim (Bool-cases (is_star c)) [
  | inl star ↦
      ap (λ ps. joined_by_stars ps last) (split-star c t star)
      ∙ ap (λ x. b'*' ∷ x) (joined-split t last)
      ∙ ap (λ d. d ∷ (t ++ b'*' ∷ last)) (sym ((==_iff c b'*').0 star))
  | inr plain ↦
      ap (λ ps. joined_by_stars ps last) (split-plain c t plain)
      ∙ joined-onto_first c (split is_star t) last (split-ne_nil t)
      ∙ ap (λ x. c ∷ x) (joined-split t last)
]

-- A part without a star in it.
abbrev pub IsPlain : Text → Type 0
IsPlain p = has b'*' p ≡ false

IsPlain-onto_first :
    (c : ℕ) (ps : List Text) → is_star c ≡ false → All IsPlain ps → All IsPlain (onto_first c ps)
IsPlain-onto_first c [] h hs = (ground (arith, h), tt)
IsPlain-onto_first c (p ∷ ps) h hs = (ground (arith, h, hs.0), hs.1)

pub split-IsPlain : (t : Text) → All IsPlain (split is_star t)
unfolding split
split-IsPlain [] = (refl, tt)
split-IsPlain (c ∷ t) = elim (Bool-cases (is_star c)) [
  | inl star ↦ rw (split, star) (refl, split-IsPlain t)
  | inr plain ↦ rw (split, plain) (IsPlain-onto_first c (split is_star t) plain (split-IsPlain t))
]
