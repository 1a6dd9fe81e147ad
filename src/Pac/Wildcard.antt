-- ===== src/Pac/Wildcard.antt =====
-- src/pac/hostfn.rs: `wildcard_match`. An index into a text is the text behind it.
pub mod Reading
pub mod Star
pub mod Turns
use Prim.Native.Nat.{◌^◌}
use proxy_watch.Prelude.{
  ℕ, zero, suc, Bool, true, false, ◌||◌, Option, none, some, [], ◌∷◌, ◌==◌, if◌then◌else◌, all,
}
use proxy_watch.Text.{Text}

abbrev pub max_match_steps : ℕ
max_match_steps = 2 ^ 24

-- What is left of the pattern and of the text, and for the last star that was met the pattern behind
-- it and the text from which it was last tried.
pub record Matching : Type 0 where
  pub pattern : Text
  pub text : Text
  pub star : Option (Text × Text)

abbrev pub behind_first : Text → Text
behind_first [] = []
behind_first (c ∷ t) = t

abbrev pub is_star : ℕ → Bool
is_star c = c == b'*'

-- Let the last star take one character more.
abbrev pub retry : Option (Text × Text) → Option Matching
retry none = none
retry (some s) =
    some (record { pattern = s.0; text = behind_first s.1; star = some (s.0, behind_first s.1) })

-- One turn of the loop, for a text that is not empty; none is the return of false.
abbrev pub turn : Text → ℕ → Text → Option (Text × Text) → Option Matching
turn [] tc t star = retry star
turn (pc ∷ p) tc t star =
    if is_star pc
    then some (record { pattern = p; text = tc ∷ t; star = some (p, tc ∷ t) })
    else if pc == b'?' || pc == tc
    then some (record { pattern = p; text = t; star = star })
    else retry star

-- The loop, by the steps that are left.
unfoldable pub match_from : ℕ → Matching → Bool
match_from zero m = elim m.text [ [] ↦ all is_star m.pattern | tc ∷ t ↦ false ]
match_from (suc left) m = elim m.text [
  | [] ↦ all is_star m.pattern
  | tc ∷ t ↦ elim (turn m.pattern tc t m.star) [ none ↦ false | some next ↦ match_from left next ]
]

unfoldable pub wildcard_match : Text → Text → Bool
unfolding match_from
wildcard_match pattern text =
    match_from max_match_steps (record { pattern = pattern; text = text; star = none })
