-- ===== src/Pac/Hostfn/Shell.antt =====
-- src/pac/hostfn.rs: `sh_exp_match` against the reading of its pattern.
use proxy_watch.Pac.Hostfn.{sh_exp_match}
use proxy_watch.Pac.Wildcard.{max_match_steps, is_star}
use proxy_watch.Pac.Wildcard.Reading.{eat_one, wildcard_reading}
use proxy_watch.Pac.Wildcard.Turns.{wildcard_match-reading}
use proxy_watch.Prelude.{
  ℕ, suc, ◌+◌, ◌*◌, ◌≤◌, Bool, false, ◌||◌, [], ◌∷◌, ◌==◌, ◌≡◌, inl, inr, refl, ◌∙◌, arith, length,
  Bool-cases,
}
use proxy_watch.Text.{Text, has}
use proxy_watch.Util.Glob.Pieces.{reach-cong}
use proxy_watch.Util.Glob.Reference.{eat, glob_reading, glob_match_lem}

eat-same :
    (c : ℕ) (f g : Text → Bool) (t : Text)
    → (c == b'?') ≡ false
    → ((s : Text) → f s ≡ g s)
    → eat c f t ≡ eat_one (λ x. c == b'?' || c == x) g t
eat-same c f g [] h same = refl
eat-same c f g (x ∷ t) h same = ground (arith, h, same t)

reading-same : (p t : Text) → has b'?' p ≡ false → glob_reading p t ≡ wildcard_reading p t
unfolding glob_reading wildcard_reading
reading-same [] t h = refl
reading-same (c ∷ p) t h = elim (Bool-cases (is_star c)) [
  | inl star ↦
      rw (glob_reading, wildcard_reading, star)
        (reach-cong (glob_reading p) (wildcard_reading p) t
          (λ s. reading-same p s (ground (arith, h))))
  | inr other ↦
      rw (glob_reading, wildcard_reading, other)
        (eat-same c (glob_reading p) (wildcard_reading p) t (ground (arith, h))
          (λ s. reading-same p s (ground (arith, h))))
]

-- Where the pattern and the text are small enough for the limit on the steps, `shExpMatch`
-- accepts exactly the texts that the pattern reads as: a star is any text, a question mark any one
-- character, and every other character is itself.
pub sh_exp_match-reading :
    (text pattern : Text)
    → length pattern + length text * suc (length pattern) ≤ max_match_steps
    → sh_exp_match text pattern ≡ wildcard_reading pattern text
unfolding sh_exp_match
sh_exp_match-reading text pattern small = elim (Bool-cases (has b'?' pattern)) [
  | inl marked ↦ rw marked (wildcard_match-reading pattern text small)
  | inr plain ↦ rw plain (glob_match_lem pattern text ∙ reading-same pattern text plain)
]
