-- ===== src/Pac/Wildcard/Reading.antt =====
-- src/pac/hostfn.rs: the reading of a pattern of `wildcard_match`.
use proxy_watch.Pac.Wildcard.{is_star}
use proxy_watch.Prelude.{
  ℕ, Bool, true, false, not, ◌&&◌, ◌||◌, [], ◌∷◌, ◌++◌, ◌==◌, ◌≡◌, inl, inr, refl, ap, ◌∙◌, arith,
  all, any, is_nil, length, Bool-cases,
}
use proxy_watch.Text.{Text}
use proxy_watch.Util.Glob.Pieces.{reach}

-- One character that a test holds of, and then the rest.
abbrev pub eat_one : (ℕ → Bool) → (Text → Bool) → Text → Bool
eat_one p f [] = false
eat_one p f (x ∷ t) = p x && f t

-- The reading of a pattern: a star is any text, a question mark any one character, and every other
-- character is itself.
unfoldable pub wildcard_reading : Text → Text → Bool
wildcard_reading [] t = is_nil t
wildcard_reading (c ∷ p) t = elim (is_star c) [
  | true ↦ reach (wildcard_reading p) t
  | false ↦ eat_one (λ x. c == b'?' || c == x) (wildcard_reading p) t
]

abbrev pub has_no_star : Text → Bool
has_no_star p = not (any is_star p)

pub reading-star :
    (c : ℕ) (p t : Text)
    → is_star c ≡ true
    → wildcard_reading (c ∷ p) t ≡ reach (wildcard_reading p) t
unfolding wildcard_reading
reading-star c p t h = rw (wildcard_reading, h) refl

pub reading-char :
    (c : ℕ) (p t : Text)
    → is_star c ≡ false
    → wildcard_reading (c ∷ p) t ≡ eat_one (λ x. c == b'?' || c == x) (wildcard_reading p) t
unfolding wildcard_reading
reading-char c p t h = rw (wildcard_reading, h) refl

-- On an empty text, the rest of the pattern is to be stars.
pub reading-nil : (p : Text) → wildcard_reading p [] ≡ all is_star p
unfolding wildcard_reading
reading-nil [] = refl
reading-nil (c ∷ p) = elim (Bool-cases (is_star c)) [
  | inl star ↦ reading-star c p [] star ∙ ground (arith, star, reading-nil p)
  | inr other ↦ reading-char c p [] other ∙ ground (arith, other)
]

-- A pattern without stars takes exactly as many characters.
pub reading-plain :
    (u p t : Text)
    → has_no_star u ≡ true
    → wildcard_reading (u ++ p) t ≡ true
    → (w s : Text) × (t ≡ w ++ s) × (length w ≡ length u) × (wildcard_reading p s ≡ true)
reading-plain [] p t h r = ([], t, refl, refl, r)
reading-plain (c ∷ u) p [] h r = absurd (cc (reading-char c (u ++ p) [] (ground (arith, h)), r))
reading-plain (c ∷ u) p (x ∷ t) h r =
    let here = reading-char c (u ++ p) (x ∷ t) (ground (arith, h)) in
    let (w, s, cut, len, rest) =
      reading-plain u p t (ground (arith, h)) (ground (arith, here, r)) in
    (x ∷ w, s, ap (λ l. x ∷ l) cut, omega (arith, len), rest)
