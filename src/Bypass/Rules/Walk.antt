-- ===== src/Bypass/Rules/Walk.antt =====
-- The backward loop of `matches`: which entry settles the verdict.
use mathlib.Core.List.{reverse-append}
use proxy_watch.Bypass.Pattern.{HostPattern}
use proxy_watch.Bypass.Rules.{Act, skips, subtracts, bypasses, walk}
use proxy_watch.Prelude.{Bool, List, [], ◌∷◌, ◌++◌, ◌≡◌, refl, ap, ◌∙◌, reverse, arith, All}

module _ (act : HostPattern → Act) (unnamed named : Bool) where
  -- The verdict as a pass from the first entry to the last, each one overwriting it.
  abbrev pub overwrite : Act → Bool → Bool
  overwrite skips v = v
  overwrite subtracts v = unnamed
  overwrite bypasses v = named

  unfoldable pub forward : Bool → List HostPattern → Bool
  forward v [] = v
  forward v (p ∷ ps) = forward (overwrite (act p) v) ps

  walk-append :
      (ps : List HostPattern) (p : HostPattern) (v : Bool)
      → walk act unnamed named v (ps ++ p ∷ []) ≡ walk act unnamed named (overwrite (act p) v) ps
  unfolding walk
  walk-append [] p v = ground arith
  walk-append (q ∷ ps) p v = ground (arith, walk-append ps p v)

  -- The last entry that acts decides: the backward loop and the forward pass agree.
  pub walk-reverse :
      (ps : List HostPattern) (v : Bool) → walk act unnamed named v (reverse ps) ≡ forward v ps
  unfolding walk forward
  walk-reverse [] v = refl
  walk-reverse (p ∷ ps) v =
      ap (walk act unnamed named v) (reverse-append (p ∷ []) ps)
      ∙ walk-append (reverse ps) p v
      ∙ walk-reverse ps (overwrite (act p) v)

  pub forward-append :
      (ps qs : List HostPattern) (v : Bool) → forward v (ps ++ qs) ≡ forward (forward v ps) qs
  unfolding forward
  forward-append [] qs v = refl
  forward-append (p ∷ ps) qs v = forward-append ps qs (overwrite (act p) v)

  -- Entries that do nothing for the destination leave the verdict.
  pub forward-skips :
      (ps : List HostPattern) (v : Bool) → All (λ p. act p ≡ skips) ps → forward v ps ≡ v
  unfolding forward
  forward-skips [] v h = refl
  forward-skips (p ∷ ps) v h = ground (arith, h.0, forward-skips ps v h.1)

  pub forward-last :
      (before : List HostPattern) (p : HostPattern) (after : List HostPattern) (v : Bool)
      → All (λ q. act q ≡ skips) after
      → forward v (before ++ p ∷ after) ≡ overwrite (act p) (forward v before)
  unfolding forward
  forward-last before p after v h =
      forward-append before (p ∷ after) v
      ∙ forward-skips after (overwrite (act p) (forward v before)) h
