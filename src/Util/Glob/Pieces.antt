-- ===== src/Util/Glob/Pieces.antt =====
-- How the searches of a glob take a text apart.
use proxy_watch.Prelude.{
  ℕ, ◌≤◌, ◌||◌, Bool, true, false, Option, none, some, [], ◌∷◌, ◌++◌, ◌≡◌, inl, inr, refl, ap, sym,
  ◌∙◌, arith, length, length-append, append_assoc, Bool-cases, Option-cases, map_option, subst,
}
use proxy_watch.Text.{Text, strip_prefix, find_text}

pub strip_prefix-eq : (p t v : Text) → strip_prefix p t ≡ some v → t ≡ p ++ v
unfolding strip_prefix
strip_prefix-eq [] t v h = cc h
strip_prefix-eq (c ∷ p) [] v h = absurd (cc h)
strip_prefix-eq (c ∷ p) (x ∷ t) v h = ground (arith, h, strip_prefix-eq p t v)

pub strip_prefix-append : (p v : Text) → strip_prefix p (p ++ v) ≡ some v
unfolding strip_prefix
strip_prefix-append [] v = refl
strip_prefix-append (c ∷ p) v = ground (arith, strip_prefix-append p v)

-- A test that holds of some suffix of the text.
abbrev pub reach : (Text → Bool) → Text → Bool
reach f [] = f []
reach f (c ∷ t) = f (c ∷ t) || reach f t

-- A test of what stands behind a prefix.
abbrev pub behind : Text → (Text → Bool) → Text → Bool
behind p f t = elim (strip_prefix p t) [ none ↦ false | some v ↦ f v ]

pub reach-eq :
    (f : Text → Bool) (t : Text)
    → reach f t ≡ true
    → (w : Text) × (v : Text) × (t ≡ w ++ v) × (f v ≡ true)
reach-eq f [] h = ([], [], refl, h)
reach-eq f (c ∷ t) h = elim (Bool-cases (f (c ∷ t))) [
  | inl here ↦ ([], c ∷ t, refl, here)
  | inr later ↦
      let r = reach-eq f t (ground (arith, h, later)) in (c ∷ r.0, r.1, ap (λ s. c ∷ s) r.2, r.3)
]

pub reach-append : (f : Text → Bool) (w v : Text) → f v ≡ true → reach f (w ++ v) ≡ true
reach-append f [] [] h = h
reach-append f [] (c ∷ v) h = ground (arith, h)
reach-append f (c ∷ w) v h = ground (arith, reach-append f w v h)

pub reach-cong : (f g : Text → Bool) (t : Text) → ((s : Text) → f s ≡ g s) → reach f t ≡ reach g t
reach-cong f g [] h = h []
reach-cong f g (c ∷ t) h = ground (arith, h (c ∷ t), reach-cong f g t h)

abbrev pub IsUpward : (Text → Bool) → Type 0
IsUpward f = (w v : Text) → f v ≡ true → f (w ++ v) ≡ true

pub reach-IsUpward : (f : Text → Bool) → IsUpward (reach f)
reach-IsUpward f [] v h = h
reach-IsUpward f (c ∷ w) v h = ground (arith, reach-IsUpward f w v h)

-- Of two ways to take a text apart, the longer rest ends in the shorter one.
pub rest-append :
    (a b v w : Text) → a ++ v ≡ b ++ w → length a ≤ length b → (x : Text) × (v ≡ x ++ w)
rest-append [] b v w h n = (b, h)
rest-append (c ∷ a) [] v w h n = absurd (omega arith)
rest-append (c ∷ a) (d ∷ b) v w h n = rest-append a b v w (cc h) (omega arith)

behind-eq :
    (p : Text) (f : Text → Bool) (t : Text)
    → behind p f t ≡ true
    → (v : Text) × (t ≡ p ++ v) × (f v ≡ true)
behind-eq p f t h = elim (Option-cases (strip_prefix p t)) [
  | inl absent ↦ absurd (cc (rw (behind, absent) at h))
  | inr (v, present) ↦ (v, strip_prefix-eq p t v present, rw (behind, present) at h)
]

-- The first occurrence leaves the longest rest, so a test that holds of a longer text where it
-- holds of its end holds behind some occurrence only if it holds behind the first.
first-behind :
    (p : Text) (f : Text → Bool) (c : ℕ) (t v : Text)
    → IsUpward f
    → strip_prefix p (c ∷ t) ≡ some v
    → reach (behind p f) t ≡ true
    → f v ≡ true
first-behind p f c t v up h k =
    let r = reach-eq (behind p f) t k in
    let b = behind-eq p f r.1 r.3 in
    let x =
      rest-append p ((c ∷ r.0) ++ p) v b.0
        (sym (strip_prefix-eq p (c ∷ t) v h)
          ∙ ap (λ s. c ∷ s) (r.2 ∙ ap (λ s. r.0 ++ s) b.1 ∙ sym (append_assoc r.0 p b.0)))
        (omega (arith, length-append r.0 p)) in
    subst (λ s. f s ≡ true) (sym x.1) (up x.0 b.0 b.2)

-- What holds behind the first occurrence.
abbrev pub found : (Text → Bool) → Option (Text × Text) → Bool
found f none = false
found f (some r) = f r.1

found-map :
    (f : Text → Bool) (c : ℕ) (o : Option (Text × Text))
    → found f (map_option (λ r. (c ∷ r.0, r.1)) o) ≡ found f o
found-map f c none = refl
found-map f c (some r) = refl

pub reach-behind :
    (p : Text) (f : Text → Bool) (t : Text)
    → IsUpward f
    → reach (behind p f) t ≡ found f (find_text p t)
unfolding find_text
reach-behind p f [] up = elim (Option-cases (strip_prefix p [])) [
  | inl absent ↦ rw (behind, absent) refl
  | inr (v, present) ↦ rw (behind, present) refl
]
reach-behind p f (c ∷ t) up = elim (Option-cases (strip_prefix p (c ∷ t))) [
  | inl absent ↦
      rw (find_text, behind, absent) (reach-behind p f t up ∙ sym (found-map f c (find_text p t)))
  | inr (v, present) ↦
      rw (find_text, behind, present) (ground (arith, first-behind p f c t v up present))
]
