-- ===== src/Pac/Wildcard/Star.antt =====
-- src/pac/hostfn.rs: what the last star of a pattern can still reach.
use proxy_watch.Pac.Wildcard.{Matching, is_star}
use proxy_watch.Prelude.{
  ℕ, suc, ◌+◌, ◌≤◌, Bool, true, false, ◌||◌, Option, none, some, [], ◌∷◌, ◌++◌, ◌≡◌, inl, inr, refl,
  sym, ap, ◌∙◌, subst, arith, length, length-append, append_assoc, Bool-cases,
}
use proxy_watch.Text.{Text}
use proxy_watch.Util.Glob.Pieces.{reach, reach-eq, reach-IsUpward, rest-append}
use proxy_watch.Pac.Wildcard.Reading.{wildcard_reading, has_no_star, reading-star, reading-plain}

-- What the last star can still reach, one character or more behind where it was last tried.
abbrev pub back : Option (Text × Text) → Bool
back none = false
back (some (sp, [])) = false
back (some (sp, c ∷ r)) = reach (wildcard_reading sp) r

-- Between the last star and the place that is read now stand as many characters of the text as of
-- the pattern, and no other star.
abbrev pub Linked : Text → Text → Option (Text × Text) → Type 0
Linked p t none = Unit
Linked p t (some (sp, r)) =
    (u w : Text) × (sp ≡ u ++ p) × (has_no_star u ≡ true) × (r ≡ w ++ t) × (length w ≡ length u)

rest-shorter :
    (w t : Text) (c : ℕ) (x z s : Text)
    → w ++ t ≡ c ∷ ((x ++ z) ++ s)
    → length w ≤ length z
    → (v : Text) × (t ≡ v ++ s) × (suc (length s) ≤ length t)
rest-shorter w t c x z s whole le =
    let sizes : length w + length t ≡ suc ((length x + length z) + length s) =
      sym (length-append w t)
      ∙ ap length whole
      ∙ ap suc (length-append (x ++ z) s ∙ ap (λ n. n + length s) (length-append x z)) in
    let (v, e) = rest-append w (c ∷ (x ++ z)) t s whole (omega (arith, le, length-append x z)) in
    (v, e, omega (arith, sizes, le))

-- Where the last star can still reach, the text behind reaches too.
back-rest :
    (p t : Text) (star : Option (Text × Text))
    → Linked p t star
    → back star ≡ true
    → (v s : Text) × (t ≡ v ++ s) × (suc (length s) ≤ length t) × (wildcard_reading p s ≡ true)
back-rest p t none linked h = absurd (cc h)
back-rest p t (some (sp, [])) linked h = absurd (cc h)
back-rest p t (some (sp, c ∷ r)) (u, w, pattern, plain, text, len) h =
    let (x, y, cut, found) = reach-eq (wildcard_reading sp) r h in
    let (z, s, cut2, len2, rest) =
      reading-plain u p y plain (subst (λ q. wildcard_reading q y ≡ true) pattern found) in
    let whole =
      sym text ∙ ap (λ l. c ∷ l) (cut ∙ ap (λ l. x ++ l) cut2 ∙ sym (append_assoc x z s)) in
    let (v, e, shorter) = rest-shorter w t c x z s whole (omega (arith, len, len2)) in
    (v, s, e, shorter, rest)

-- With nothing left to read the last star reaches nothing.
pub back-end : (p : Text) (star : Option (Text × Text)) → Linked p [] star → back star ≡ false
back-end p star linked = elim (Bool-cases (back star)) [
  | inr h ↦ h
  | inl h ↦
      let (v, s, e, shorter, rest) = back-rest p [] star linked h in absurd (omega (arith, shorter))
]

-- A star in the pattern takes over from the last star.
pub back-star :
    (c : ℕ) (p t : Text) (star : Option (Text × Text))
    → is_star c ≡ true
    → Linked (c ∷ p) t star
    → (wildcard_reading (c ∷ p) t || back star) ≡ wildcard_reading (c ∷ p) t
back-star c p t star h linked = elim (Bool-cases (back star)) [
  | inr none_left ↦ ground (arith, none_left)
  | inl more ↦
      let (v, s, e, shorter, rest) = back-rest (c ∷ p) t star linked more in
      let there = reading-star c p s h in
      let up = reach-IsUpward (wildcard_reading p) v s (cc (there, rest)) in
      let here : wildcard_reading (c ∷ p) t ≡ true =
        reading-star c p t h ∙ ap (reach (wildcard_reading p)) e ∙ up in
      ground (arith, here)
]

pub back-retry :
    (sp : Text) (c : ℕ) (r : Text)
    → back (some (sp, c ∷ r)) ≡ (wildcard_reading sp r || back (some (sp, r)))
back-retry sp c [] = ground arith
back-retry sp c (x ∷ r) = refl

abbrev pub answer : Matching → Bool
answer m = wildcard_reading m.pattern m.text || back m.star

abbrev pub IsLinked : Matching → Type 0
IsLinked m = Linked m.pattern m.text m.star
