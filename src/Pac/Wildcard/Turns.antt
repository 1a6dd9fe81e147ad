-- ===== src/Pac/Wildcard/Turns.antt =====
-- src/pac/hostfn.rs: `wildcard_match` against the reading of its pattern.
use native.Mathlib.Nat.{mul-le-mul, suc-mul}
use proxy_watch.Pac.Wildcard.{
  Matching, is_star, retry, turn, match_from, wildcard_match, max_match_steps,
}
use proxy_watch.Prelude.{
  ℕ, zero, suc, ◌+◌, ◌*◌, ◌≤◌, ◌<◌, Bool, true, false, ◌||◌, Option, none, some, [], ◌∷◌, ◌++◌,
  ◌==◌, ◌≡◌, inl, inr, refl, sym, ap, ◌∙◌, subst, arith, all, length, length-append, append_assoc,
  any-append, Bool-cases,
}
use proxy_watch.Text.{Text}
use proxy_watch.Pac.Wildcard.Reading.{wildcard_reading, reading-star, reading-char, reading-nil}
use proxy_watch.Pac.Wildcard.Star.{back, Linked, back-end, back-star, back-retry, answer, IsLinked}

-- More turns than the loop can still take.
abbrev cost : Text → Text → Option (Text × Text) → ℕ
cost p t none = length p + length t * suc (length p)
cost p t (some (sp, r)) = length p + length r * suc (length sp)

-- A turn leads to a state with the expected answer, or stops where that is false.
abbrev Leads : Option Matching → Bool → ℕ → Type 0
Leads none expected bound = expected ≡ false
Leads (some next) expected bound =
    IsLinked next × (answer next ≡ expected) × (cost next.pattern next.text next.star < bound)

retry-Leads :
    (p : Text) (c : ℕ) (t : Text) (star : Option (Text × Text))
    → Linked p (c ∷ t) star
    → Leads (retry star) (back star) (cost p (c ∷ t) star)
retry-Leads p c t none linked = refl
retry-Leads p c t (some (sp, [])) (u, w, pattern, plain, text, len) =
    absurd (omega (arith, ap length text, length-append w (c ∷ t)))
retry-Leads p c t (some (sp, x ∷ r)) linked = (
  ([], [], refl, refl, refl, refl),
  sym (back-retry sp x r),
  omega (arith, suc-mul (length r) (suc (length sp))),
)

star-cost :
    (c : ℕ) (p t : Text) (star : Option (Text × Text))
    → Linked (c ∷ p) t star
    → length p + length t * suc (length p) < cost (c ∷ p) t star
star-cost c p t none linked =
    let grows : length t * suc (length p) ≤ length t * suc (suc (length p)) =
      mul-le-mul (omega arith) (omega arith) in
    omega (arith, grows)
star-cost c p t (some (sp, r)) (u, w, pattern, plain, text, len) =
    let sizes : length t ≤ length r = omega (arith, ap length text, length-append w t) in
    let wider : suc (length p) ≤ suc (length sp) =
      omega (arith, ap length pattern, length-append u (c ∷ p)) in
    let grows : length t * suc (length p) ≤ length r * suc (length sp) = mul-le-mul sizes wider in
    omega (arith, grows)

step-Linked :
    (pc : ℕ) (p : Text) (tc : ℕ) (t : Text) (star : Option (Text × Text))
    → is_star pc ≡ false
    → Linked (pc ∷ p) (tc ∷ t) star
    → Linked p t star
step-Linked pc p tc t none plain linked = tt
step-Linked pc p tc t (some (sp, r)) other (u, w, pattern, plain, text, len) = (
  u ++ pc ∷ [],
  w ++ tc ∷ [],
  pattern ∙ sym (append_assoc u (pc ∷ []) p),
  ground (arith, plain, other, any-append is_star u (pc ∷ [])),
  text ∙ sym (append_assoc w (tc ∷ []) t),
  omega (arith, len, length-append w (tc ∷ []), length-append u (pc ∷ [])),
)

step-cost :
    (pc : ℕ) (p : Text) (tc : ℕ) (t : Text) (star : Option (Text × Text))
    → cost p t star < cost (pc ∷ p) (tc ∷ t) star
step-cost pc p tc t none =
    let grows : length t * suc (length p) ≤ suc (length t) * suc (suc (length p)) =
      mul-le-mul (omega arith) (omega arith) in
    omega (arith, grows)
step-cost pc p tc t (some (sp, r)) = omega arith

turn-star :
    (pc : ℕ) (p : Text) (tc : ℕ) (t : Text) (star : Option (Text × Text))
    → is_star pc ≡ true
    → turn (pc ∷ p) tc t star
      ≡ some (record { pattern = p; text = tc ∷ t; star = some (p, tc ∷ t) })
turn-star pc p tc t star h = rw h refl

turn-same :
    (pc : ℕ) (p : Text) (tc : ℕ) (t : Text) (star : Option (Text × Text))
    → is_star pc ≡ false
    → (pc == b'?' || pc == tc) ≡ true
    → turn (pc ∷ p) tc t star ≡ some (record { pattern = p; text = t; star = star })
turn-same pc p tc t star other h = rw (other, h) refl

turn-other :
    (pc : ℕ) (p : Text) (tc : ℕ) (t : Text) (star : Option (Text × Text))
    → is_star pc ≡ false
    → (pc == b'?' || pc == tc) ≡ false
    → turn (pc ∷ p) tc t star ≡ retry star
turn-other pc p tc t star other h = rw (other, h) refl

turn-Leads :
    (p : Text) (tc : ℕ) (t : Text) (star : Option (Text × Text))
    → Linked p (tc ∷ t) star
    → Leads (turn p tc t star) (wildcard_reading p (tc ∷ t) || back star) (cost p (tc ∷ t) star)
unfolding wildcard_reading
turn-Leads [] tc t star linked = retry-Leads [] tc t star linked
turn-Leads (pc ∷ p) tc t star linked = elim (Bool-cases (is_star pc)) [
  | inl h ↦
      subst
        (λ o.
          Leads o (wildcard_reading (pc ∷ p) (tc ∷ t) || back star) (cost (pc ∷ p) (tc ∷ t) star))
        (sym (turn-star pc p tc t star h))
        (
          ([], [], refl, refl, refl, refl),
          sym (back-star pc p (tc ∷ t) star h linked ∙ reading-star pc p (tc ∷ t) h),
          star-cost pc p (tc ∷ t) star linked,
        )
  | inr other ↦ elim (Bool-cases (pc == b'?' || pc == tc)) [
    | inl h ↦
        subst
          (λ o.
            Leads o (wildcard_reading (pc ∷ p) (tc ∷ t) || back star) (cost (pc ∷ p) (tc ∷ t) star))
          (sym (turn-same pc p tc t star other h))
          (
            step-Linked pc p tc t star other linked,
            ground (arith, reading-char pc p (tc ∷ t) other, h),
            step-cost pc p tc t star,
          )
    | inr h ↦
        let missed : (wildcard_reading (pc ∷ p) (tc ∷ t) || back star) ≡ back star =
          ground (arith, reading-char pc p (tc ∷ t) other, h) in
        subst
          (λ o.
            Leads o (wildcard_reading (pc ∷ p) (tc ∷ t) || back star) (cost (pc ∷ p) (tc ∷ t) star))
          (sym (turn-other pc p tc t star other h))
          (subst (λ b. Leads (retry star) b (cost (pc ∷ p) (tc ∷ t) star)) (sym missed)
            (retry-Leads (pc ∷ p) tc t star linked))
  ]
]

-- What the loop answers with so many steps left.
abbrev Answers : ℕ → Type 0
Answers budget =
    (p t : Text) (star : Option (Text × Text))
    → Linked p t star
    → cost p t star ≤ budget
    → match_from budget (record { pattern = p; text = t; star = star })
      ≡ (wildcard_reading p t || back star)

-- The loop behind a turn.
after_turn :
    (left : ℕ) (o : Option Matching) (expected : Bool) (bound : ℕ)
    → Answers left
    → Leads o expected bound
    → bound ≤ suc left
    → (elim o [ none ↦ false | some next ↦ match_from left next ]) ≡ expected
after_turn left none expected bound ih leads enough = sym leads
after_turn left (some next) expected bound ih (linked, same, less) enough =
    ih next.pattern next.text next.star linked (omega (arith, less, enough)) ∙ same

-- No turn is left, and none is needed.
no_turn :
    (o : Option Matching) (expected : Bool) (bound : ℕ)
    → Leads o expected bound
    → bound ≤ 0
    → false ≡ expected
no_turn none expected bound leads enough = sym leads
no_turn (some next) expected bound (linked, same, less) enough =
    absurd (omega (arith, less, enough))

at_end :
    (p : Text) (star : Option (Text × Text))
    → Linked p [] star
    → all is_star p ≡ (wildcard_reading p [] || back star)
at_end p star linked = ground (arith, reading-nil p, back-end p star linked)

match_from-Answers : (budget : ℕ) → Answers budget
unfolding match_from
match_from-Answers zero p [] star linked enough = at_end p star linked
match_from-Answers zero p (tc ∷ t) star linked enough =
    no_turn (turn p tc t star) _ _ (turn-Leads p tc t star linked) enough
match_from-Answers (suc left) p [] star linked enough = at_end p star linked
match_from-Answers (suc left) p (tc ∷ t) star linked enough =
    after_turn left (turn p tc t star) _ _ (match_from-Answers left) (turn-Leads p tc t star linked)
      enough

-- Where the pattern and the text are small enough for the limit on the steps, the matcher, which
-- goes back to the last star only, accepts exactly the texts that the pattern reads as: a star is
-- any text, a question mark any one character, and every other character is itself.
pub wildcard_match-reading :
    (pattern text : Text)
    → length pattern + length text * suc (length pattern) ≤ max_match_steps
    → wildcard_match pattern text ≡ wildcard_reading pattern text
unfolding wildcard_match
wildcard_match-reading pattern text small =
    match_from-Answers max_match_steps pattern text none tt small ∙ ground arith
