-- ===== src/Android/Selected/Chosen.antt =====
-- The steps of what a `ProxySelector` answers, against a list description of them.
use proxy_watch.Android.Selected.{SelectedProxy, selected_step, choose, steps_from_selected}
use proxy_watch.Crates.{Crates}
use proxy_watch.Error.{Error, invalid_result}
use proxy_watch.Pac.Chain.{Chain, empty_chain, max_chain, is_full, push}
use proxy_watch.Pac.Outcome.{fresh, finish_steps, finish-steps, push-full, push-room}
use proxy_watch.Prelude.{
  ◌≤◌, Option, none, some, List, [], ◌∷◌, ◌++◌, ◌≡◌, inl, inr, refl, sym, ◌∙◌, ap, arith, length,
  or_option, unwrap_or, Bool-cases, append-nil,
}
use proxy_watch.Prelude.Result.{ok, err, ok_or, Result-cases}
use proxy_watch.Prelude.Take.{take, take-short}
use proxy_watch.Resolve.{ProxyStep}
use proxy_watch.Text.{lit}

or_option-some :
    (first : Option Error) (e : Error) (rest : Option Error)
    → or_option (or_option first (some e)) rest ≡ or_option first (some e)
or_option-some none e rest = refl
or_option-some (some f) e rest = refl

-- Only a chain without steps is an error.
same_answer :
    (steps : List ProxyStep) (e f : Error)
    → (steps ≡ [] → e ≡ f)
    → ok_or e (finish_steps (take max_chain (fresh [] steps)))
      ≡ ok_or f (finish_steps (take max_chain (fresh [] steps)))
unfolding take
same_answer [] e f h = ap err (h refl)
same_answer (s ∷ steps) e f h = refl

module _ ⦃crates : Crates⦄ where
  -- The steps of the proxies that can be used, in order.
  abbrev pub usable : List SelectedProxy → List ProxyStep
  usable [] = []
  usable (p ∷ ps) = elim (selected_step p) [ ok s ↦ s ∷ usable ps | err _ ↦ usable ps ]

  -- The error of the first proxy that cannot be used.
  abbrev pub first_error : List SelectedProxy → Option Error
  first_error [] = none
  first_error (p ∷ ps) = elim (selected_step p) [ ok s ↦ first_error ps | err e ↦ some e ]

  choose_lem :
      (ps : List SelectedProxy) (c : Chain) (first : Option Error)
      → length c.steps ≤ max_chain
      → ((choose ps c first).0).steps ≡ take max_chain (c.steps ++ fresh c.seen (usable ps))
  unfolding choose
  choose_lem [] c first n = rw append-nil (sym (take-short max_chain c.steps n))
  choose_lem (p ∷ ps) c first n = elim (Result-cases (selected_step p)) [
    | inr (e, refused) ↦ rw (usable, choose, refused) (choose_lem ps c (or_option first (some e)) n)
    | inl (s, used) ↦ elim (Bool-cases (is_full (push s c))) [
      | inl full ↦ rw (usable, choose, used, full) (push-full s (usable ps) c full)
      | inr room ↦
          let next = push-room s (usable ps) c room n in
          rw (usable, choose, used, room)
            (choose_lem ps (push s c) first next.0 ∙ ap (take max_chain) next.1)
    ]
  ]

  choose-error :
      (ps : List SelectedProxy) (c : Chain) (first : Option Error)
      → usable ps ≡ []
      → (choose ps c first).1 ≡ or_option first (first_error ps)
  unfolding choose
  choose-error [] c first h = ground arith
  choose-error (p ∷ ps) c first h = elim (Result-cases (selected_step p)) [
    | inl (s, used) ↦ absurd (cc (rw (usable, used) at h))
    | inr (e, refused) ↦
        rw (choose, first_error, refused)
          (choose-error ps c (or_option first (some e)) (rw (usable, refused) at h)
            ∙ or_option-some first e (first_error ps))
  ]

  -- A `ProxySelector`'s answer becomes the steps of the proxies that can be used, each once and in
  -- the order of its first occurrence, cut at 64; where none can be used, it is the error of the
  -- first one, or that there was none.
  pub steps_from_selected_lem :
      (selected : List SelectedProxy)
      → steps_from_selected selected
        ≡ ok_or
            (unwrap_or
              (first_error selected)
              (invalid_result (lit "ProxySelector.select returned no proxy")))
            (finish_steps (take max_chain (fresh [] (usable selected))))
  unfolding steps_from_selected
  steps_from_selected_lem selected =
      let chain = choose selected empty_chain none in
      let unknown = invalid_result (lit "ProxySelector.select returned no proxy") in
      ap (ok_or (unwrap_or chain.1 unknown))
        (finish-steps chain.0 _ (choose_lem selected empty_chain none (omega arith)))
      ∙ same_answer (usable selected) (unwrap_or chain.1 unknown)
          (unwrap_or (first_error selected) unknown)
          (λ h. ap (λ o. unwrap_or o unknown) (choose-error selected empty_chain none h))
