-- ===== src/Pac/Outcome.antt =====
-- What the chain of a PAC result holds, against a list description of it.
use mathlib.Core.Bool.{decide_iff}
use proxy_watch.Crates.{Crates}
use proxy_watch.Error.{Error, invalid_result}
use proxy_watch.Pac.Chain.{
  step_eq, ProxyStep-discrete, Chain, empty_chain, max_chain, is_full, push, finish,
  is_result_separator, parse_candidate, collect, parse_find_proxy_result,
}
use proxy_watch.Prelude.{
  ℕ, zero, suc, ◌≤◌, true, false, Option, none, some, List, [], ◌∷◌, ◌++◌, ◌≡◌, inl, inr, refl, sym,
  ◌∙◌, ap, ◌↔◌, arith, any, length, length-append, is_nil, if◌then◌else◌, Bool-cases, Option-cases,
  append_assoc, append-nil,
}
use proxy_watch.Prelude.Take.{take, length-take, take-short, take-append, any-take}
use proxy_watch.Prelude.Result.{ok, ok_or}
use proxy_watch.Resolve.{ProxyStep}
use proxy_watch.Text.{Text, split}

-- Two equal steps, and no others, are equal by the test.
step_eq_iff : (a b : ProxyStep) → (step_eq a b ≡ true) ↔ (a ≡ b)
unfolding step_eq
step_eq_iff a b = decide_iff (ProxyStep-discrete a b)

-- No step of the list stands in it twice.
abbrev pub IsDistinct : List ProxyStep → Type 0
IsDistinct [] = Unit
IsDistinct (s ∷ steps) = (any (step_eq s) steps ≡ false) × IsDistinct steps

-- The steps that are not among those seen, each at its first occurrence.
abbrev pub fresh : List ProxyStep → List ProxyStep → List ProxyStep
fresh seen [] = []
fresh seen (s ∷ steps) =
    if any (step_eq s) seen then fresh seen steps else s ∷ fresh (s ∷ seen) steps

any-fresh :
    (t : ProxyStep) (seen steps : List ProxyStep)
    → any (step_eq t) seen ≡ true
    → any (step_eq t) (fresh seen steps) ≡ false
any-fresh t seen [] h = refl
any-fresh t seen (s ∷ steps) h = elim (Bool-cases (any (step_eq s) seen)) [
  | inl old ↦ rw (fresh, old) (any-fresh t seen steps h)
  | inr new ↦ elim (Bool-cases (step_eq t s)) [
    | inl same ↦ absurd (cc (h, new, (step_eq_iff t s).0 same))
    | inr other ↦ rw (fresh, new, any, other) (any-fresh t (s ∷ seen) steps (ground (arith, h)))
  ]
]

step_eq_refl : (s : ProxyStep) → step_eq s s ≡ true
step_eq_refl s = (step_eq_iff s s).1 refl

fresh-IsDistinct : (seen steps : List ProxyStep) → IsDistinct (fresh seen steps)
fresh-IsDistinct seen [] = tt
fresh-IsDistinct seen (s ∷ steps) = elim (Bool-cases (any (step_eq s) seen)) [
  | inl old ↦ rw (fresh, old) (fresh-IsDistinct seen steps)
  | inr new ↦
      rw (fresh, new)
        (
          any-fresh s (s ∷ seen) steps (ground (arith, step_eq_refl s)),
          fresh-IsDistinct (s ∷ seen) steps,
        )
]

take-IsDistinct : (n : ℕ) (steps : List ProxyStep) → IsDistinct steps → IsDistinct (take n steps)
unfolding take
take-IsDistinct zero steps h = tt
take-IsDistinct (suc n) [] h = tt
take-IsDistinct (suc n) (s ∷ steps) h =
    (any-take (step_eq s) n steps h.0, take-IsDistinct n steps h.1)

is_full-length : (c : Chain) → is_full c ≡ true → length c.steps ≡ max_chain
unfolding is_full
is_full-length c h = ground arith

module _ (s : ProxyStep) (rest : List ProxyStep) (c : Chain) where
  push_new :
      is_full c ≡ false
      → any (step_eq s) c.seen ≡ false
      → push s c ≡ record { steps = c.steps ++ s ∷ []; seen = s ∷ c.seen }
  unfolding push
  push_new h k = rw (h, k) refl

  pub push-full :
      is_full (push s c) ≡ true
      → (push s c).steps ≡ take max_chain (c.steps ++ fresh c.seen (s ∷ rest))
  unfolding push
  push-full h = elim (Bool-cases (is_full c)) [
    | inl full ↦
        rw full
          (sym (take-append max_chain c.steps (fresh c.seen (s ∷ rest)) (is_full-length c full)))
    | inr room ↦ elim (Bool-cases (any (step_eq s) c.seen)) [
      | inl old ↦ absurd (ground (arith, h, room, old))
      | inr new ↦
          rw (room, new, push)
            (sym (
              ap (take max_chain) (sym (append_assoc c.steps (s ∷ []) (fresh (s ∷ c.seen) rest)))
              ∙ take-append max_chain (c.steps ++ s ∷ []) (fresh (s ∷ c.seen) rest) (
                  sym (ap (λ d. length d.steps) (push_new room new))
                  ∙ is_full-length (push s c) h)))
    ]
  ]

  pub push-room :
      is_full (push s c) ≡ false
      → length c.steps ≤ max_chain
      → (length (push s c).steps ≤ max_chain)
        × ((push s c).steps ++ fresh (push s c).seen rest ≡ c.steps ++ fresh c.seen (s ∷ rest))
  unfolding push is_full
  push-room h n = ground (
    arith,
    length-append c.steps (s ∷ []),
    append_assoc c.steps (s ∷ []) (fresh (s ∷ c.seen) rest),
  )

-- A chain of steps, if there is any.
abbrev pub finish_steps : List ProxyStep → Option (List ProxyStep)
finish_steps steps = if is_nil steps then none else some steps

ok-injective : (e : Error) (a b : List ProxyStep) → ok_or e (some a) ≡ ok b → a ≡ b
ok-injective e a b h = cc h

finish_steps-bounds :
    (e : Error) (kept steps : List ProxyStep)
    → ok_or e (finish_steps kept) ≡ ok steps
    → length kept ≤ max_chain
    → IsDistinct kept
    → (1 ≤ length steps) × (length steps ≤ max_chain) × IsDistinct steps
finish_steps-bounds e [] steps h n d = absurd (cc h)
finish_steps-bounds e (s ∷ kept) steps h n d =
    rw (sym (ok-injective e (s ∷ kept) steps h)) (omega arith, n, d)

pub finish-steps :
    (c : Chain) (steps : List ProxyStep) → c.steps ≡ steps → finish c ≡ finish_steps steps
unfolding finish
finish-steps c steps h = rw h refl

module _ ⦃crates : Crates⦄ where
  -- The steps of the usable candidates, in order.
  abbrev pub parsed : List Text → List ProxyStep
  parsed [] = []
  parsed (candidate ∷ candidates) = elim (parse_candidate candidate) [
    | none ↦ parsed candidates
    | some s ↦ s ∷ parsed candidates
  ]

  collect_lem :
      (candidates : List Text) (c : Chain)
      → length c.steps ≤ max_chain
      → (collect candidates c).steps ≡ take max_chain (c.steps ++ fresh c.seen (parsed candidates))
  unfolding collect
  collect_lem [] c n = rw append-nil (sym (take-short max_chain c.steps n))
  collect_lem (candidate ∷ candidates) c n = elim (Option-cases (parse_candidate candidate)) [
    | inl unusable ↦ rw (parsed, unusable) (collect_lem candidates c n)
    | inr (s, usable) ↦ elim (Bool-cases (is_full (push s c))) [
      | inl full ↦ rw (parsed, usable, full) (push-full s (parsed candidates) c full)
      | inr room ↦
          let next = push-room s (parsed candidates) c room n in
          rw (parsed, usable, room)
            (collect_lem candidates (push s c) next.0 ∙ ap (take max_chain) next.1)
    ]
  ]

  -- The parser answers the usable candidates' steps, each once and in the order of its first
  -- occurrence, cut at 64, and refuses a result with no usable candidate.
  pub parse_find_proxy_result_lem :
      (result : Text)
      → parse_find_proxy_result result
        ≡ ok_or
            (invalid_result result)
            (finish_steps (take max_chain (fresh [] (parsed (split is_result_separator result)))))
  unfolding parse_find_proxy_result
  parse_find_proxy_result_lem result = ap (ok_or (invalid_result result)) (
      finish-steps (collect (split is_result_separator result) empty_chain)
        (take max_chain (fresh [] (parsed (split is_result_separator result))))
        (collect_lem (split is_result_separator result) empty_chain (omega arith)))

  -- A chain that the parser answers has at least one step and at most 64, and no step of it
  -- stands in it twice.
  pub parse_find_proxy_result-IsDistinct :
      (result : Text) (steps : List ProxyStep)
      → parse_find_proxy_result result ≡ ok steps
      → (1 ≤ length steps) × (length steps ≤ max_chain) × IsDistinct steps
  parse_find_proxy_result-IsDistinct result steps h =
      let all_steps = fresh [] (parsed (split is_result_separator result)) in
      finish_steps-bounds (invalid_result result) (take max_chain all_steps) steps
        (sym (parse_find_proxy_result_lem result) ∙ h) (length-take max_chain all_steps)
        (take-IsDistinct max_chain all_steps
          (fresh-IsDistinct [] (parsed (split is_result_separator result))))
