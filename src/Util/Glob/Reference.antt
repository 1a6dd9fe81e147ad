-- ===== src/Util/Glob/Reference.antt =====
-- `glob_match` against the reading of a star as any text.
use proxy_watch.Prelude.{
  ℕ, ◌==◌, ◌&&◌, Bool, true, false, Option, none, some, List, [], ◌∷◌, ◌++◌, ◌≡◌, inl, inr, refl,
  ap, sym, ◌∙◌, arith, All, is_nil, Option-cases, unwrap_or,
}
use proxy_watch.Text.{
  Text, has, text_eq, strip_prefix, ends_with, find_text, split_once, rsplit_once, split,
}
use proxy_watch.Util.Glob.{glob_parts, glob_tail, glob_star, glob_match}
use proxy_watch.Util.Glob.Splits.{
  reach-text_eq, split_once-none, split_once-some, rsplit_once-none, rsplit_once-some,
  joined_by_stars, joined-split, IsPlain, split-IsPlain,
}
use proxy_watch.Util.Glob.Pieces.{reach, behind, reach-cong, reach-IsUpward, found, reach-behind}

-- The first character, and then the rest.
abbrev pub eat : ℕ → (Text → Bool) → Text → Bool
eat c f [] = false
eat c f (x ∷ t) = c == x && f t

-- The reading of a glob: a star is any text, and every other character is itself.
unfoldable pub glob_reading : Text → Text → Bool
glob_reading [] t = is_nil t
glob_reading (c ∷ p) t = elim (c == b'*') [
  | true ↦ reach (glob_reading p) t
  | false ↦ eat c (glob_reading p) t
]

reading-star : (p t : Text) → glob_reading (b'*' ∷ p) t ≡ reach (glob_reading p) t
unfolding glob_reading
reading-star p t = refl

reading-char :
    (c : ℕ) (p t : Text) → (c == b'*') ≡ false → glob_reading (c ∷ p) t ≡ eat c (glob_reading p) t
unfolding glob_reading
reading-char c p t h = rw (glob_reading, h) refl

behind-cons :
    (c : ℕ) (p : Text) (f : Text → Bool) (t : Text) → eat c (behind p f) t ≡ behind (c ∷ p) f t
unfolding strip_prefix
behind-cons c p f [] = refl
behind-cons c p f (x ∷ t) = ground arith

eat-cong : (c : ℕ) (f g : Text → Bool) (t : Text) → ((s : Text) → f s ≡ g s) → eat c f t ≡ eat c g t
eat-cong c f g [] h = refl
eat-cong c f g (x ∷ t) h = ground (arith, h t)

-- A text with no star in front is a prefix to be met.
reading-plain :
    (p q t : Text) → has b'*' p ≡ false → glob_reading (p ++ q) t ≡ behind p (glob_reading q) t
unfolding strip_prefix
reading-plain [] q t h = refl
reading-plain (c ∷ p) q t h =
    reading-char c (p ++ q) t (ground (arith, h))
    ∙ eat-cong c (glob_reading (p ++ q)) (behind p (glob_reading q)) t
        (λ s. reading-plain p q s (ground (arith, h)))
    ∙ behind-cons c p (glob_reading q) t

reading-text : (p t : Text) → has b'*' p ≡ false → glob_reading p t ≡ text_eq p t
unfolding text_eq glob_reading
reading-text [] [] h = refl
reading-text [] (x ∷ t) h = refl
reading-text (c ∷ p) [] h = reading-char c p [] (ground (arith, h))
reading-text (c ∷ p) (x ∷ t) h =
    reading-char c p (x ∷ t) (ground (arith, h))
    ∙ ap (λ b. c == x && b) (reading-text p t (ground (arith, h)))

-- Whether what the parts leave ends in the last one.
abbrev ends_behind : Text → Option Text → Bool
ends_behind last none = false
ends_behind last (some r) = ends_with last r

parts-found :
    (p : Text) (ps : List Text) (last t : Text)
    → ((r : Text)
        → reach (glob_reading (joined_by_stars ps last)) r ≡ ends_behind last (glob_parts ps r))
    → found (reach (glob_reading (joined_by_stars ps last))) (find_text p t)
      ≡ ends_behind last (glob_parts (p ∷ ps) t)
unfolding glob_parts
parts-found p ps last t rest = elim (Option-cases (find_text p t)) [
  | inl absent ↦ rw (glob_parts, absent) refl
  | inr (r, present) ↦ rw (glob_parts, present) (rest r.1)
]

-- The parts behind one another, each found at its first occurrence, and the last one at the end.
reading-parts :
    (ps : List Text) (last t : Text)
    → All IsPlain ps
    → has b'*' last ≡ false
    → reach (glob_reading (joined_by_stars ps last)) t ≡ ends_behind last (glob_parts ps t)
unfolding glob_parts glob_reading
reading-parts [] last t hs h =
    reach-cong (glob_reading last) (text_eq last) t (λ s. reading-text last s h)
    ∙ reach-text_eq last t
reading-parts (p ∷ ps) last t hs h =
    let q = joined_by_stars ps last in
    reach-cong (glob_reading (p ++ b'*' ∷ q)) (behind p (reach (glob_reading q))) t
      (λ s. reading-plain p (b'*' ∷ q) s hs.0)
    ∙ reach-behind p (reach (glob_reading q)) t (reach-IsUpward (glob_reading q))
    ∙ parts-found p ps last t (λ r. reading-parts ps last r hs.1 h)

find_text-nil : (t : Text) → find_text [] t ≡ some ([], t)
unfolding find_text strip_prefix
find_text-nil [] = refl
find_text-nil (c ∷ t) = refl

glob_tail-ends :
    (middle last t : Text)
    → glob_tail middle last t ≡ ends_behind last (glob_parts (split (λ c. c == b'*') middle) t)
unfolding glob_tail
glob_tail-ends middle last t = elim (Option-cases (glob_parts (split (λ c. c == b'*') middle) t)) [
  | inl absent ↦ rw (glob_tail, absent) refl
  | inr (r, present) ↦ rw (glob_tail, present) refl
]

glob_tail-nil : (last t : Text) → glob_tail [] last t ≡ ends_with last t
unfolding glob_tail glob_parts split
glob_tail-nil last t = rw (glob_tail, find_text-nil t) refl

-- Behind the first star: the parts up to the last star, and the last part.
reading-behind_star :
    (rest t : Text)
    → (let halves = unwrap_or (rsplit_once b'*' rest) ([], rest) in
        glob_tail halves.0 halves.1 t ≡ reach (glob_reading rest) t)
unfolding glob_parts
reading-behind_star rest t = elim (Option-cases (rsplit_once b'*' rest)) [
  | inl absent ↦
      rw absent (
        glob_tail-nil rest t ∙ sym (reading-parts [] rest t tt (rsplit_once-none b'*' rest absent)))
  | inr (r, present) ↦
      let cut = rsplit_once-some b'*' rest r present in
      rw present (
        glob_tail-ends r.0 r.1 t
        ∙ sym (reading-parts (split (λ c. c == b'*') r.0) r.1 t (split-IsPlain r.0) cut.1)
        ∙ ap (λ x. reach (glob_reading x) t) (joined-split r.0 r.1 ∙ sym cut.0))
]

glob_star-behind :
    (first rest t : Text) → glob_star first rest t ≡ behind first (glob_reading (b'*' ∷ rest)) t
unfolding glob_star glob_reading
glob_star-behind first rest t = elim (Option-cases (strip_prefix first t)) [
  | inl absent ↦ rw (glob_star, behind, absent) refl
  | inr (u, present) ↦ rw (glob_star, behind, present) (reading-behind_star rest u)
]

-- The matcher, which looks for each part of the pattern at its first occurrence only and never
-- goes back, accepts exactly the texts that the pattern reads as: a star is any text, and every
-- other character is itself.
pub glob_match_lem : (pattern text : Text) → glob_match pattern text ≡ glob_reading pattern text
unfolding glob_match
glob_match_lem pattern text = elim (Option-cases (split_once b'*' pattern)) [
  | inl absent ↦
      rw (glob_match, absent)
        (sym (reading-text pattern text (split_once-none b'*' pattern absent)))
  | inr (r, present) ↦
      let cut = split_once-some b'*' pattern r present in
      rw (glob_match, present)
        (glob_star-behind r.0 r.1 text
          ∙ sym (reading-plain r.0 (b'*' ∷ r.1) text cut.1)
          ∙ ap (λ p. glob_reading p text) (sym cut.0))
]
